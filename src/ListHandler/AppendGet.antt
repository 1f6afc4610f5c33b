-- ===== src/ListHandler/AppendGet.antt =====
-- ListAppend and ListGetRange, one after the other.
use fcache.Base.{
  suc, ◌<◌, ◌≡◌, refl, ap, ◌∙◌, List, [], ◌∷◌, ◌++◌, map, true, false, some, length, length-append,
  ◌==◌, arith,
}
use fcache.Base.Int.{pos}
use fcache.Value.{ListValue}
use fcache.FcList.{
  FlexItems, FcVariant, ints, uints, strings, floats, FcList, visit_items, variant_size,
}
use fcache.FcList.WellFormed.{IsWellFormed}
use fcache.Response.{
  FlatBuilder, finish, status_ok, body_list_get_range, body_list_append, buffer_body, vector,
}
use fcache.Operation.Add.{unsorted_append}
use fcache.Operation.Add.Unsorted.{emplace_back_each-append}
use fcache.Operation.GetByRange.{base_head}
use fcache.ListHandler.WholeRange.{whole, is_list_flex_type_of, handle_get_range_stored}
use fcache.ListHandler.Found.{have_list_found}
use fcache.ListHandler.Lists.{Lists, get_list, put_list, is_list_flex_type}
use fcache.ListHandler.Adding.{
  ListAppend, handle_append, do_add_append, add_when_found, add_to_list, add_visited,
}
use fcache.ListHandler.Reading.{handle_get_range}

pub length-map : {A B : Type 0} (g : A → B) (xs : List A) → length (map g xs) ≡ length xs
length-map g [] = refl
length-map g (x ∷ xs) = ap suc (length-map g xs)

some_appended :
    {A B : Type 0} (g : B → A) (items : List B) (list : List A)
    → 0 < length items
    → 0 < length (list ++ map g items)
some_appended g items list h = omega (arith, length-append list (map g items), length-map g items)

module _ {F : Type 0} where
  -- The nodes of a list, and then the items as values of its type.
  abbrev pub with_items : (c : FlexItems F) → List c.Ref → FcVariant F → FcVariant F
  with_items c items (ints l) = ints (l ++ map c.as_int items)
  with_items c items (uints l) = uints (l ++ map c.as_uint items)
  with_items c items (strings l) = strings (l ++ map c.as_string items)
  with_items c items (floats l) = floats (l ++ map c.as_float items)

  with_items-size :
      (c : FlexItems F) (items : List c.Ref) (v : FcVariant F)
      → 0 < length items
      → 0 < variant_size (with_items c items v)
  with_items-size c items (ints l) h = some_appended c.as_int items l h
  with_items-size c items (uints l) h = some_appended c.as_uint items l h
  with_items-size c items (strings l) h = some_appended c.as_string items l h
  with_items-size c items (floats l) h = some_appended c.as_float items l h

module _ {F : Type 0} ⦃f : ListValue F⦄ (c : FlexItems F) where
  pub visit_items_append :
      (items : List c.Ref) (v : FcVariant F)
      → (visit_items c items (λ A o xs list. unsorted_append xs list) v).0 ≡ with_items c items v
  unfolding unsorted_append
  visit_items_append items (ints l) = ap ints (emplace_back_each-append (map c.as_int items) l)
  visit_items_append items (uints l) = ap uints (emplace_back_each-append (map c.as_uint items) l)
  visit_items_append items (strings l) =
      ap strings (emplace_back_each-append (map c.as_string items) l)
  visit_items_append items (floats l) =
      ap floats (emplace_back_each-append (map c.as_float items) l)

  add_visited_append :
      (l : FcList F) (items : List c.Ref)
      → l.m_sorted ≡ false
      → (add_visited c l items true (pos 0) false).0 ≡ with_items c items l.m_list
  unfolding add_visited
  add_visited_append l items unsorted = rw unsorted (visit_items_append items l.m_list)

  handle_append_stored :
      (m_lists : Lists F) (fbb : FlatBuilder F) (req : ListAppend c) (l : FcList F)
      → get_list m_lists req.name ≡ some l
      → IsWellFormed l
      → l.m_sorted ≡ false
      → 0 < length req.items
      → (handle_append c m_lists fbb req).0
        ≡ put_list m_lists req.name l (with_items c req.items l.m_list)
  unfolding handle_append do_add_append add_when_found add_to_list
  handle_append_stored m_lists fbb req l e w unsorted h =
      let some_items : (length req.items == 0) ≡ false = ground arith in
      let typed : is_list_flex_type l.m_flex_type ≡ true =
        ap is_list_flex_type w.0 ∙ is_list_flex_type_of l.m_list in
      rw (have_list_found m_lists fbb req.name body_list_append e) (
        rw (some_items, typed)
          (ap (put_list m_lists req.name l) (add_visited_append l req.items unsorted)))

  -- ListAppend of some items to a well-formed list that is not sorted, and then ListGetRange of the whole list:
  -- the answer is the nodes that the list had, and then the items as values of its type.
  pub handle_get_range-handle_append :
      (m_lists : Lists F) (fbb fbb' : FlatBuilder F) (req : ListAppend c) (l : FcList F)
      → get_list m_lists req.name ≡ some l
      → IsWellFormed l
      → l.m_sorted ≡ false
      → 0 < length req.items
      → handle_get_range
          (handle_append c m_lists fbb req).0
          fbb'
          (record { name = req.name; range = whole; base = base_head })
        ≡ finish fbb' status_ok body_list_get_range
            (buffer_body (vector (with_items c req.items l.m_list)))
  handle_get_range-handle_append m_lists fbb fbb' req l e w unsorted h =
      rw (handle_append_stored m_lists fbb req l e w unsorted h) (
        handle_get_range_stored m_lists fbb' req.name l (with_items c req.items l.m_list) e
          (with_items-size c req.items l.m_list h))
