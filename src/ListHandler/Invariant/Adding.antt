-- ===== src/ListHandler/Invariant/Adding.antt =====
-- The handlers of ListAdd and ListAppend keep the lists well formed.
use fcache.Base.{
  ◌≡◌, refl, List, Bool, true, false, not, ◌&&◌, some, length, ◌==◌, Bool-cases, Option-cases, inl,
  inr,
}
use fcache.Base.Int.{ℤ, pos}
use fcache.Value.{Fcstring, ListValue}
use fcache.Value.Order.{int_value, uint_value, string_value}
use fcache.FcList.{FlexItems, FcVariant, ints, uints, strings, floats, FcList, visit_items}
use fcache.Store.Entries.{find-AllValues}
use fcache.FcList.WellFormed.{IsVariantSorted, IsWellFormed, SameType, converted}
use fcache.Response.{FlatBuilder}
use fcache.Operation.Add.{sorted_add, unsorted_add, unsorted_append}
use fcache.Operation.Add.Ordered.{sorted_add-IsSorted}
use fcache.Operation.GetByRange.{Base, base_none}
use fcache.ListHandler.Lists.{Lists, get_list, is_list_flex_type}
use fcache.ListHandler.Found.{have_list_missing, have_list_found}
use fcache.ListHandler.Adding.{
  add_body_type, ListAdd, ListAppend, add_visited, add_to_list, do_add_append, handle_add,
  handle_append,
}
use fcache.ListHandler.Invariant.{IsValid, put_list-IsValid, visit_items-SameType}

module _ {F : Type 0} ⦃f : ListValue F⦄ (c : FlexItems F) where
  -- The items are ascending, as values of the list, where they are said to be and the list is a
  -- sorted one.
  abbrev pub AsClaimed : List c.Ref → Bool → FcList F → Type 0
  AsClaimed items items_sorted l =
      l.m_sorted ≡ true → items_sorted ≡ true → IsVariantSorted (converted c items l.m_list)

  add_visited-SameType :
      (l : FcList F) (items : List c.Ref) (is_append : Bool) (position : ℤ) (items_sorted : Bool)
      → SameType l.m_list (add_visited c l items is_append position items_sorted).0
  unfolding add_visited
  add_visited-SameType l items is_append position items_sorted =
      elim (Bool-cases (is_append && not l.m_sorted)) [
        | inl e ↦
            rw e (visit_items-SameType c items (λ A o xs list. unsorted_append xs list) l.m_list)
        | inr e ↦ elim (Bool-cases l.m_sorted) [
          | inl s ↦
              rw (e, s)
                (visit_items-SameType c items
                  (λ A o xs list. sorted_add ⦃o = o⦄ xs items_sorted list) l.m_list)
          | inr s ↦
              rw (e, s)
                (visit_items-SameType c items (λ A o xs list. unsorted_add xs position list)
                  l.m_list)
        ]
      ]

  sorted_add-IsVariantSorted :
      (items : List c.Ref) (items_sorted : Bool) (v : FcVariant F)
      → IsVariantSorted v
      → (items_sorted ≡ true → IsVariantSorted (converted c items v))
      → IsVariantSorted
          (visit_items c items (λ A o xs list. sorted_add ⦃o = o⦄ xs items_sorted list) v).0
  sorted_add-IsVariantSorted items b (ints l) s t = sorted_add-IsSorted ⦃o = int_value⦄ _ b l s t
  sorted_add-IsVariantSorted items b (uints l) s t = sorted_add-IsSorted ⦃o = uint_value⦄ _ b l s t
  sorted_add-IsVariantSorted items b (strings l) s t =
      sorted_add-IsSorted ⦃o = string_value⦄ _ b l s t
  sorted_add-IsVariantSorted items b (floats l) s t = sorted_add-IsSorted ⦃o = f⦄ _ b l s t

  add_visited-IsVariantSorted :
      (l : FcList F) (items : List c.Ref) (is_append : Bool) (position : ℤ) (items_sorted : Bool)
      → IsVariantSorted l.m_list
      → AsClaimed items items_sorted l
      → l.m_sorted ≡ true
      → IsVariantSorted (add_visited c l items is_append position items_sorted).0
  unfolding add_visited
  add_visited-IsVariantSorted l items is_append position items_sorted s t e =
      rw (e, and_false is_append) (sorted_add-IsVariantSorted items items_sorted l.m_list s (t e))
    where
      and_false : (b : Bool) → (b && false) ≡ false
      and_false true = refl
      and_false false = refl

  add_to_list-IsValid :
      (m_lists : Lists F) (fbb : FlatBuilder F) (name : Fcstring) (l : FcList F)
      (items : List c.Ref) (is_append : Bool) (position : ℤ) (items_sorted : Bool)
      → IsValid m_lists
      → get_list m_lists name ≡ some l
      → AsClaimed items items_sorted l
      → IsValid (add_to_list c m_lists fbb name l items is_append position items_sorted).0
  unfolding add_to_list
  add_to_list-IsValid m_lists fbb name l items is_append position items_sorted w e t =
      elim (Bool-cases (is_list_flex_type l.m_flex_type)) [
        | inl k ↦ rw k (
            put_list-IsValid m_lists name l
              (add_visited c l items is_append position items_sorted).0 w e
              (add_visited-SameType l items is_append position items_sorted)
              (λ s.
                add_visited-IsVariantSorted l items is_append position items_sorted
                  ((find-AllValues IsWellFormed name l m_lists w e).2 s) t s))
        | inr k ↦ rw k w
      ]

  do_add_append-IsValid :
      (m_lists : Lists F) (fbb : FlatBuilder F) (name : Fcstring) (items : List c.Ref)
      (is_append : Bool) (base : Base) (position : ℤ) (items_sorted : Bool)
      → IsValid m_lists
      → ((l : FcList F) → get_list m_lists name ≡ some l → AsClaimed items items_sorted l)
      → IsValid (do_add_append c m_lists fbb name items is_append base position items_sorted).0
  unfolding do_add_append
  do_add_append-IsValid m_lists fbb name items is_append base position items_sorted w t =
      elim (Option-cases (get_list m_lists name)) [
        | inl e ↦
            rw (have_list_missing m_lists fbb name (add_body_type c is_append) e, do_add_append) w
        | inr (l, e) ↦ elim (Bool-cases (length items == 0)) [
          | inl z ↦
              rw (have_list_found m_lists fbb name (add_body_type c is_append) e, z, do_add_append)
                w
          | inr z ↦
              rw (have_list_found m_lists fbb name (add_body_type c is_append) e, z, do_add_append)
                (add_to_list-IsValid m_lists fbb name l items is_append position items_sorted w e
                  (t l e))
        ]
      ]

  -- The handler of ListAdd keeps every list well formed, if the items are ascending where the
  -- request says so of a sorted list.
  pub handle_add-IsValid :
      (m_lists : Lists F) (fbb : FlatBuilder F) (req : ListAdd c)
      → IsValid m_lists
      → ((l : FcList F)
          → get_list m_lists req.name ≡ some l
          → AsClaimed req.items req.items_sorted l)
      → IsValid (handle_add c m_lists fbb req).0
  unfolding handle_add
  handle_add-IsValid m_lists fbb req w t =
      do_add_append-IsValid m_lists fbb req.name req.items false req.base req.position
        req.items_sorted w t

  -- The handler of ListAppend keeps every list well formed.
  pub handle_append-IsValid :
      (m_lists : Lists F) (fbb : FlatBuilder F) (req : ListAppend c)
      → IsValid m_lists
      → IsValid (handle_append c m_lists fbb req).0
  unfolding handle_append
  handle_append-IsValid m_lists fbb req w =
      do_add_append-IsValid m_lists fbb req.name req.items true base_none (pos 0) false w
        (λ l e s claimed. absurd (cc))
