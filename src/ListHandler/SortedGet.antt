-- ===== src/ListHandler/SortedGet.antt =====
-- ListAdd or ListAppend to a sorted list, and then ListGetRange.
use fcache.Base.{
  ◌<◌, ◌≡◌, ap, ◌∙◌, List, ◌++◌, map, Bool, true, false, not, ◌&&◌, some, length, ◌==◌, arith,
  length-perm, length-append,
}
use fcache.Base.Int.{ℤ, pos}
use fcache.Value.{Fcstring, ListValue, IsTotal}
use fcache.Value.Order.{
  int_value, uint_value, string_value, ltb_ℤ-IsTotal, ltb-IsTotal, str_lt-IsTotal,
}
use fcache.Sorted.{IsSorted}
use fcache.Sorted.Reference.{sort, sort-perm, sort_unique}
use fcache.FcList.{
  FlexItems, FcVariant, ints, uints, strings, floats, FcList, visit_items, variant_size,
}
use fcache.FcList.WellFormed.{IsVariantSorted, IsWellFormed, converted}
use fcache.Response.{FlatBuilder, finish, status_ok, body_list_get_range, buffer_body, vector}
use fcache.Operation.Add.{sorted_add}
use fcache.Operation.Add.Ordered.{sorted_add-IsSorted, sorted_add-perm}
use fcache.Operation.GetByRange.{Base, base_head, base_none}
use fcache.ListHandler.Found.{have_list_found}
use fcache.ListHandler.Lists.{Lists, get_list, put_list, is_list_flex_type}
use fcache.ListHandler.Adding.{
  ListAdd, handle_add, handle_append, do_add_append, add_when_found, add_to_list, add_visited,
  add_body_type,
}
use fcache.ListHandler.Invariant.Adding.{AsClaimed}
use fcache.ListHandler.Reading.{handle_get_range}
use fcache.ListHandler.AppendGet.{length-map}
use fcache.ListHandler.WholeRange.{whole, is_list_flex_type_of, handle_get_range_stored}

module _ {F : Type 0} ⦃f : ListValue F⦄ (c : FlexItems F) where
  -- The nodes of a list and the items as values of its type, all of them sorted.
  abbrev pub sorted_with : List c.Ref → FcVariant F → FcVariant F
  sorted_with items (ints l) = ints (sort ⦃o = int_value⦄ (map c.as_int items ++ l))
  sorted_with items (uints l) = uints (sort ⦃o = uint_value⦄ (map c.as_uint items ++ l))
  sorted_with items (strings l) = strings (sort ⦃o = string_value⦄ (map c.as_string items ++ l))
  sorted_with items (floats l) = floats (sort ⦃o = f⦄ (map c.as_float items ++ l))

  sorted_add-sort :
      {A : Type 0} ⦃o : ListValue A⦄ (items list : List A) (items_sorted : Bool)
      → IsTotal A o
      → IsSorted list
      → (items_sorted ≡ true → IsSorted items)
      → (sorted_add items items_sorted list).0 ≡ sort (items ++ list)
  sorted_add-sort items list items_sorted total s t =
      sort_unique total _ (items ++ list) (sorted_add-IsSorted items items_sorted list s t)
        (sorted_add-perm items items_sorted list).0

  some_sorted :
      {A B : Type 0} ⦃o : ListValue A⦄ (g : B → A) (items : List B) (list : List A)
      → 0 < length items
      → 0 < length (sort (map g items ++ list))
  some_sorted g items list h = omega (
    arith,
    length-perm _ _ (sort-perm (map g items ++ list)),
    length-append (map g items) list,
    length-map g items,
  )

  sorted_with-size :
      (items : List c.Ref) (v : FcVariant F)
      → 0 < length items
      → 0 < variant_size (sorted_with items v)
  sorted_with-size items (ints l) h = some_sorted ⦃o = int_value⦄ c.as_int items l h
  sorted_with-size items (uints l) h = some_sorted ⦃o = uint_value⦄ c.as_uint items l h
  sorted_with-size items (strings l) h = some_sorted ⦃o = string_value⦄ c.as_string items l h
  sorted_with-size items (floats l) h = some_sorted ⦃o = f⦄ c.as_float items l h

  pub visit_items_sorted :
      (items : List c.Ref) (items_sorted : Bool) (v : FcVariant F)
      → IsTotal F f
      → IsVariantSorted v
      → (items_sorted ≡ true → IsVariantSorted (converted c items v))
      → (visit_items c items (λ A o xs list. sorted_add ⦃o = o⦄ xs items_sorted list) v).0
        ≡ sorted_with items v
  visit_items_sorted items b (ints l) total s t =
      ap ints (sorted_add-sort ⦃o = int_value⦄ _ l b ltb_ℤ-IsTotal s t)
  visit_items_sorted items b (uints l) total s t =
      ap uints (sorted_add-sort ⦃o = uint_value⦄ _ l b ltb-IsTotal s t)
  visit_items_sorted items b (strings l) total s t =
      ap strings (sorted_add-sort ⦃o = string_value⦄ _ l b str_lt-IsTotal s t)
  visit_items_sorted items b (floats l) total s t =
      ap floats (sorted_add-sort ⦃o = f⦄ _ l b total s t)

  add_visited_sorted :
      (l : FcList F) (items : List c.Ref) (is_append : Bool) (position : ℤ) (items_sorted : Bool)
      → IsTotal F f
      → l.m_sorted ≡ true
      → IsVariantSorted l.m_list
      → AsClaimed c items items_sorted l
      → (add_visited c l items is_append position items_sorted).0 ≡ sorted_with items l.m_list
  unfolding add_visited
  add_visited_sorted l items is_append position items_sorted total sorted s claimed =
      let not_appended : (is_append && not l.m_sorted) ≡ false = ground arith in
      rw (not_appended, sorted)
        (visit_items_sorted items items_sorted l.m_list total s (claimed sorted))

  do_add_append_stored :
      (m_lists : Lists F) (fbb : FlatBuilder F) (name : Fcstring) (items : List c.Ref)
      (is_append : Bool) (base : Base) (position : ℤ) (items_sorted : Bool) (l : FcList F)
      → IsTotal F f
      → get_list m_lists name ≡ some l
      → IsWellFormed l
      → l.m_sorted ≡ true
      → AsClaimed c items items_sorted l
      → 0 < length items
      → (do_add_append c m_lists fbb name items is_append base position items_sorted).0
        ≡ put_list m_lists name l (sorted_with items l.m_list)
  unfolding do_add_append add_when_found add_to_list
  do_add_append_stored m_lists fbb name items is_append base position items_sorted l total e w
        sorted claimed h =
      let some_items : (length items == 0) ≡ false = ground arith in
      let typed : is_list_flex_type l.m_flex_type ≡ true =
        ap is_list_flex_type w.0 ∙ is_list_flex_type_of l.m_list in
      rw (have_list_found m_lists fbb name (add_body_type c is_append) e) (
        rw (some_items, typed)
          (ap (put_list m_lists name l) (
            add_visited_sorted l items is_append position items_sorted total sorted (w.2 sorted)
              claimed)))

  -- ListAdd of some items to a well-formed sorted list, ascending if it says that they are, or ListAppend, and
  -- then ListGetRange of the whole list: if the order of the floats is total, the answer is all the
  -- nodes that the list had and all the items, as values of its type, sorted. What position and base
  -- the ListAdd has does not matter.
  pub handle_get_range-handle_add :
      (m_lists : Lists F) (fbb fbb' : FlatBuilder F) (req : ListAdd c) (l : FcList F)
      → IsTotal F f
      → get_list m_lists req.name ≡ some l
      → IsWellFormed l
      → l.m_sorted ≡ true
      → AsClaimed c req.items req.items_sorted l
      → 0 < length req.items
      → (handle_get_range
            (handle_add c m_lists fbb req).0
            fbb'
            (record { name = req.name; range = whole; base = base_head })
          ≡ finish fbb' status_ok body_list_get_range
              (buffer_body (vector (sorted_with req.items l.m_list))))
        × (handle_get_range
              (handle_append c m_lists fbb (record { name = req.name; items = req.items })).0
              fbb'
              (record { name = req.name; range = whole; base = base_head })
            ≡ finish fbb' status_ok body_list_get_range
                (buffer_body (vector (sorted_with req.items l.m_list))))
  unfolding handle_add handle_append
  handle_get_range-handle_add m_lists fbb fbb' req l total e w sorted claimed h =
      let answer =
        handle_get_range_stored m_lists fbb' req.name l (sorted_with req.items l.m_list) e
          (sorted_with-size req.items l.m_list h) in
      (
        rw
            (do_add_append_stored m_lists fbb req.name req.items false req.base req.position
              req.items_sorted l total e w sorted claimed h)
            answer,
        rw
            (do_add_append_stored m_lists fbb req.name req.items true base_none (pos 0) false l
              total e w sorted (λ s n. absurd (cc)) h)
            answer,
      )
