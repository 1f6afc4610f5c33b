-- ===== src/ListHandler/Simulation/Adding.antt =====
-- The handlers of ListAdd and ListAppend against the abstract store.
use mathlib.Core.Path.{ap₂}
use fcache.Base.{
  ℕ, ◌≡◌, refl, ap, ◌∙◌, subst, List, Bool, true, false, not, ◌&&◌, Option, none, some, length,
  ◌==◌, Bool-cases, inl, inr, arith,
}
use fcache.Base.Int.{ℤ, pos}
use fcache.Value.{Fcstring, ListValue, IsTotal}
use fcache.Store.Entries.{find-AllValues}
use fcache.FcList.{
  FlexItems, FcVariant, ints, uints, strings, floats, FcList, visit_items, variant_size,
}
use fcache.FcList.WellFormed.{IsWellFormed}
use fcache.Response.{FlatBuilder, status_fail, create_empty_body_response}
use fcache.Operation.Add.{sorted_add, unsorted_add, unsorted_append}
use fcache.Value.Order.{int_value, uint_value, string_value}
use fcache.Operation.GetByRange.{Base, base_none}
use fcache.ListHandler.Lists.{Lists, get_list, have_list, is_list_flex_type}
use fcache.ListHandler.Adding.{
  ListAdd, ListAppend, add_body_type, add_visited, add_to_list, add_when_found, do_add_append,
  handle_add, handle_append,
}
use fcache.ListHandler.Invariant.{IsValid}
use fcache.ListHandler.Invariant.Adding.{AsClaimed}
use fcache.ListHandler.WholeRange.{is_list_flex_type_of}
use fcache.ListHandler.AppendGet.{with_items, visit_items_append}
use fcache.ListHandler.SortedGet.{sorted_with, visit_items_sorted}
use fcache.ListHandler.Contents.{ListStore}
use fcache.ListHandler.Contents.Adding.{added_values, inserted_with, add_seen}
use fcache.ListHandler.Simulation.{contents_of, seen, IsSeen, Refines, put_list-IsSeen}

module _ {F : Type 0} ⦃f : ListValue F⦄ (c : FlexItems F) where
  -- A functor that returns the size of what it leaves, on a list.
  visit_items_sized :
      (items : List c.Ref) (g : (A : Type 0) → ListValue A → List A → List A → List A × ℕ)
      (v w : FcVariant F)
      → ((A : Type 0) (o : ListValue A) (xs list : List A)
          → (g A o xs list).1 ≡ length (g A o xs list).0)
      → (visit_items c items g v).0 ≡ w
      → visit_items c items g v ≡ (w, variant_size w)
  visit_items_sized items g v w h e =
      ap₂ (λ (l : FcVariant F) (n : ℕ). (l, n)) e (by_type v ∙ ap variant_size e)
    where
      by_type :
          (v : FcVariant F) → (visit_items c items g v).1 ≡ variant_size (visit_items c items g v).0
      by_type (ints l) = h _ int_value _ l
      by_type (uints l) = h _ uint_value _ l
      by_type (strings l) = h _ string_value _ l
      by_type (floats l) = h _ f _ l

  inserted :
      (items : List c.Ref) (position : ℤ) (v : FcVariant F)
      → (visit_items c items (λ A o xs list. unsorted_add xs position list) v).0
        ≡ inserted_with c items position v
  inserted items position (ints l) = refl
  inserted items position (uints l) = refl
  inserted items position (strings l) = refl
  inserted items position (floats l) = refl

  add_visited_lem :
      (l : FcList F) (items : List c.Ref) (is_append : Bool) (position : ℤ) (items_sorted : Bool)
      → IsTotal F f
      → IsWellFormed l
      → AsClaimed c items items_sorted l
      → add_visited c l items is_append position items_sorted ≡ (
        added_values c (contents_of l) items is_append position,
        variant_size (added_values c (contents_of l) items is_append position),
      )
  unfolding add_visited sorted_add unsorted_add unsorted_append
  add_visited_lem l items is_append position items_sorted total w claimed =
      elim (Bool-cases l.m_sorted) [
        | inl sorted ↦
            let not_appended : (is_append && not l.m_sorted) ≡ false = ground arith in
            rw (not_appended, sorted)
              (visit_items_sized items (λ A o xs list. sorted_add ⦃o = o⦄ xs items_sorted list)
                l.m_list (sorted_with c items l.m_list) (λ A o xs list. refl)
                (visit_items_sorted c items items_sorted l.m_list total (w.2 sorted)
                  (claimed sorted)))
        | inr unsorted ↦ elim (Bool-cases is_append) [
          | inl appended ↦
              rw (unsorted, appended)
                (visit_items_sized items (λ A o xs list. unsorted_append xs list) l.m_list
                  (with_items c items l.m_list) (λ A o xs list. refl)
                  (visit_items_append c items l.m_list))
          | inr added ↦
              rw (unsorted, added)
                (visit_items_sized items (λ A o xs list. unsorted_add xs position list) l.m_list
                  (inserted_with c items position l.m_list) (λ A o xs list. refl)
                  (inserted items position l.m_list))
        ]
      ]

  pub is_list_flex_type_well :
      (l : FcList F) → IsWellFormed l → is_list_flex_type l.m_flex_type ≡ true
  is_list_flex_type_well l w = ap is_list_flex_type w.0 ∙ is_list_flex_type_of l.m_list

  do_add_append-Refines :
      (m_lists : Lists F) (s : ListStore F) (fbb : FlatBuilder F) (name : Fcstring)
      (items : List c.Ref) (is_append : Bool) (base : Base) (position : ℤ) (items_sorted : Bool)
      → IsTotal F f
      → IsValid m_lists
      → ((l : FcList F) → AsClaimed c items items_sorted l)
      → IsSeen m_lists s
      → Refines
          (do_add_append c m_lists fbb name items is_append base position items_sorted)
          (add_seen c s fbb name items is_append position (s name))
  unfolding do_add_append have_list add_when_found add_to_list
  do_add_append-Refines m_lists s fbb name items is_append base position items_sorted total w
        claimed q =
      subst
        (λ k.
          Refines (do_add_append c m_lists fbb name items is_append base position items_sorted)
            (add_seen c s fbb name items is_append position k))
        (q name) (by_found (get_list m_lists name) refl)
    where
      by_found :
          (o : Option (FcList F))
          → get_list m_lists name ≡ o
          → Refines
              (add_when_found c m_lists name items is_append position items_sorted (elim o [
                | none ↦
                    (none, create_empty_body_response fbb status_fail (add_body_type c is_append))
                | some l ↦ (some l, fbb)
              ]))
              (add_seen c s fbb name items is_append position (seen o))
      by_found none e = (q, refl)
      by_found (some l) e =
          let well = find-AllValues IsWellFormed name l m_lists w e in
          let typed = is_list_flex_type_well l well in
          let added =
            add_visited_lem l items is_append position items_sorted total well (claimed l) in
          elim (Bool-cases (length items == 0)) [
            | inl z ↦ rw z (q, refl)
            | inr z ↦
                rw (z, typed, added)
                  (
                    put_list-IsSeen m_lists s name l
                        (added_values c (contents_of l) items is_append position) q e,
                    refl,
                  )
          ]

  pub handle_add-Refines :
      (m_lists : Lists F) (s : ListStore F) (fbb : FlatBuilder F) (req : ListAdd c)
      → IsTotal F f
      → IsValid m_lists
      → ((l : FcList F) → AsClaimed c req.items req.items_sorted l)
      → IsSeen m_lists s
      → Refines
          (handle_add c m_lists fbb req)
          (add_seen c s fbb req.name req.items false req.position (s req.name))
  unfolding handle_add
  handle_add-Refines m_lists s fbb req total w claimed q =
      do_add_append-Refines m_lists s fbb req.name req.items false req.base req.position
        req.items_sorted total w claimed q

  pub handle_append-Refines :
      (m_lists : Lists F) (s : ListStore F) (fbb : FlatBuilder F) (req : ListAppend c)
      → IsTotal F f
      → IsValid m_lists
      → IsSeen m_lists s
      → Refines
          (handle_append c m_lists fbb req)
          (add_seen c s fbb req.name req.items true (pos 0) (s req.name))
  unfolding handle_append
  handle_append-Refines m_lists s fbb req total w q =
      do_add_append-Refines m_lists s fbb req.name req.items true base_none (pos 0) false total w
        (λ l sorted claimed. absurd (cc)) q
