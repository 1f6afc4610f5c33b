-- ===== src/ListHandler/Invariant/Changing.antt =====
-- The handlers of ListSet, ListRemove and ListRemoveIf keep the lists well formed.
use fcache.Base.{
  IfDefined, IfDefined-map, ℕ, ◌≤◌, ◌≡◌, refl, sym, subst, List, Bool, true, false, Option, none,
  some, length, ltb, ◌==◌, if_elim, Bool-cases, Option-cases, inl, inr, arith,
}
use fcache.Base.Int.{pos, pos_part, ◌-ℤ◌, eqb_ℤ}
use fcache.Value.{ListValue}
use fcache.Value.Order.{int_value, uint_value, string_value}
use fcache.Sorted.{IsSorted}
use fcache.Store.Entries.{find-AllValues}
use fcache.FcList.{
  FlexItems, FcVariant, ints, uints, strings, floats, FcList, visit_items, visit_defined,
}
use fcache.FcList.WellFormed.{IsVariantSorted, IsWellFormed, SameType}
use fcache.Response.{
  FlatBuilder, status_ok, body_list_remove, body_list_remove_if, body_list_set, Status,
  create_empty_body_response,
}
use fcache.ListHandler.Found.{have_list_missing, have_list_found}
use fcache.Range.{positions_to_indices}
use fcache.Operation.Set.{set}
use fcache.Operation.Remove.{remove, erase_range}
use fcache.Operation.RemoveIf.Kept.{remove_if_equals-IsSorted, erase-IsSorted}
use fcache.Operation.Intersect.{Range}
use fcache.ListHandler.Lists.{Lists, Handled, get_list, put_list, is_list_flex_type}
use fcache.ListHandler.Changing.{
  RequestValue, value_none, value_int, value_uint, value_string, value_float, ListRemove,
  ListRemoveIf, ListSet, handle_remove, do_remove_if_equals, handle_remove_if, set_in_list,
  handle_set, remove_when_found, remove_if_when_found, set_when_found,
}
use fcache.ListHandler.Invariant.{IsValid, put_list-IsValid, visit_items-SameType}

le_of_ltb : (a b : ℕ) → ltb b a ≡ false → a ≤ b
le_of_ltb a b h = ground arith

remove-IsSorted :
    {A : Type 0} (o : ListValue A) (r : Range) (list : List A)
    → IsSorted ⦃o = o⦄ list
    → IfDefined (IsSorted ⦃o = o⦄) (remove r.start r.stop r.has_stop list)
unfolding remove erase_range
remove-IsSorted o r list s =
    let i = positions_to_indices r.start r.stop r.has_stop list in
    elim (Bool-cases i.0) [
      | inr e ↦ rw e s
      | inl e ↦ elim (Bool-cases (eqb_ℤ (i.2 -ℤ i.1) (pos (length list)))) [
        | inl k ↦ rw (e, k) tt
        | inr k ↦ elim (Bool-cases (ltb (pos_part i.2) (pos_part i.1))) [
          | inl h ↦ rw (e, k, h) tt
          | inr h ↦
              rw (e, k, h)
                (erase-IsSorted ⦃o = o⦄ (pos_part i.1) (pos_part i.2) list (le_of_ltb _ _ h) s)
        ]
      ]
    ]

module _ {F : Type 0} ⦃f : ListValue F⦄ where
  removed : Range → FcVariant F → Option (FcVariant F)
  removed r = visit_defined (λ A list. remove r.start r.stop r.has_stop list)

  removed-SameType : (r : Range) (v w : FcVariant F) → removed r v ≡ some w → SameType v w
  unfolding removed
  removed-SameType r (ints l) w e = ground (arith)
  removed-SameType r (uints l) w e = ground (arith)
  removed-SameType r (strings l) w e = ground (arith)
  removed-SameType r (floats l) w e = ground (arith)

  removed-IsVariantSorted :
      (r : Range) (v : FcVariant F) → IsVariantSorted v → IfDefined IsVariantSorted (removed r v)
  unfolding removed
  removed-IsVariantSorted r (ints l) s =
      IfDefined-map IsVariantSorted ints (remove r.start r.stop r.has_stop l)
        (remove-IsSorted int_value r l s)
  removed-IsVariantSorted r (uints l) s =
      IfDefined-map IsVariantSorted uints (remove r.start r.stop r.has_stop l)
        (remove-IsSorted uint_value r l s)
  removed-IsVariantSorted r (strings l) s =
      IfDefined-map IsVariantSorted strings (remove r.start r.stop r.has_stop l)
        (remove-IsSorted string_value r l s)
  removed-IsVariantSorted r (floats l) s =
      IfDefined-map IsVariantSorted floats (remove r.start r.stop r.has_stop l)
        (remove-IsSorted f r l s)

  handle_remove-IfDefined :
      (m_lists : Lists F) (fbb : FlatBuilder F) (req : ListRemove)
      → IsValid m_lists
      → IfDefined (λ r. IsValid r.0) (handle_remove m_lists fbb req)
  unfolding handle_remove remove_when_found removed
  handle_remove-IfDefined m_lists fbb req w = elim (Option-cases (get_list m_lists req.name)) [
    | inl e ↦ rw (have_list_missing m_lists fbb req.name body_list_remove e) w
    | inr (l, e) ↦ rw (have_list_found m_lists fbb req.name body_list_remove e) (
        IfDefined-map (λ r. IsValid r.0)
          (λ v. (
            put_list m_lists req.name l v,
            create_empty_body_response fbb status_ok body_list_remove,
          ))
          (removed req.range l.m_list) (put_removed l e (removed req.range l.m_list) refl))
  ]
    where
      put_removed :
          (l : FcList F)
          → get_list m_lists req.name ≡ some l
          → (o : Option (FcVariant F)) → removed req.range l.m_list ≡ o
          → IfDefined (λ v. IsValid (put_list m_lists req.name l v)) o
      put_removed l e none k = tt
      put_removed l e (some v) k =
          put_list-IsValid m_lists req.name l v w e (removed-SameType req.range l.m_list v k) (λ s.
            subst (IfDefined IsVariantSorted) k (
              removed-IsVariantSorted req.range l.m_list
                ((find-AllValues IsWellFormed req.name l m_lists w e).2 s)))

  -- Where the handler of ListRemove is defined, it keeps every list well formed.
  pub handle_remove-IsValid :
      (m_lists : Lists F) (fbb : FlatBuilder F) (req : ListRemove) (r : Handled F)
      → handle_remove m_lists fbb req ≡ some r
      → IsValid m_lists
      → IsValid r.0
  handle_remove-IsValid m_lists fbb req r e w =
      subst (IfDefined (λ (h : Handled F). IsValid h.0)) e
        (handle_remove-IfDefined m_lists fbb req w)

  do_remove_if_equals-SameType :
      (r : Range) (value : RequestValue F) (v : FcVariant F) (sorted : Bool)
      → SameType v (do_remove_if_equals r value v sorted).0
  unfolding do_remove_if_equals
  do_remove_if_equals-SameType r (value_int v) (ints l) sorted = (refl, refl)
  do_remove_if_equals-SameType r (value_uint v) (uints l) sorted = (refl, refl)
  do_remove_if_equals-SameType r (value_string v) (strings l) sorted = (refl, refl)
  do_remove_if_equals-SameType r (value_float v) (floats l) sorted = (refl, refl)
  do_remove_if_equals-SameType r value_none list sorted = (refl, refl)
  do_remove_if_equals-SameType r _ list sorted = (refl, refl)

  do_remove_if_equals-IsVariantSorted :
      (r : Range) (value : RequestValue F) (v : FcVariant F)
      → IsVariantSorted v
      → IsVariantSorted (do_remove_if_equals r value v true).0
  unfolding do_remove_if_equals
  do_remove_if_equals-IsVariantSorted r (value_int x) (ints l) s =
      remove_if_equals-IsSorted ⦃o = int_value⦄ r.start r.stop r.has_stop x l s
  do_remove_if_equals-IsVariantSorted r (value_uint x) (uints l) s =
      remove_if_equals-IsSorted ⦃o = uint_value⦄ r.start r.stop r.has_stop x l s
  do_remove_if_equals-IsVariantSorted r (value_string x) (strings l) s =
      remove_if_equals-IsSorted ⦃o = string_value⦄ r.start r.stop r.has_stop x l s
  do_remove_if_equals-IsVariantSorted r (value_float x) (floats l) s =
      remove_if_equals-IsSorted ⦃o = f⦄ r.start r.stop r.has_stop x l s
  do_remove_if_equals-IsVariantSorted r value_none list s = s
  do_remove_if_equals-IsVariantSorted r _ list s = s

  -- The handler of ListRemoveIf keeps every list well formed.
  pub handle_remove_if-IsValid :
      (m_lists : Lists F) (fbb : FlatBuilder F) (req : ListRemoveIf F)
      → IsValid m_lists
      → IsValid (handle_remove_if m_lists fbb req).0
  unfolding handle_remove_if remove_if_when_found
  handle_remove_if-IsValid m_lists fbb req w = elim (Option-cases (get_list m_lists req.name)) [
    | inl e ↦ rw (have_list_missing m_lists fbb req.name body_list_remove_if e) w
    | inr (l, e) ↦ rw (have_list_found m_lists fbb req.name body_list_remove_if e) (
        put_list-IsValid m_lists req.name l
          (do_remove_if_equals req.range req.value l.m_list l.m_sorted).0 w e
          (do_remove_if_equals-SameType req.range req.value l.m_list l.m_sorted)
          (λ s.
            subst (λ b. IsVariantSorted (do_remove_if_equals req.range req.value l.m_list b).0)
              (sym s)
              (do_remove_if_equals-IsVariantSorted req.range req.value l.m_list
                ((find-AllValues IsWellFormed req.name l m_lists w e).2 s))))
  ]

  module _ (c : FlexItems F) where
    set_in_list-IsValid :
        (m_lists : Lists F) (l : FcList F) (req : ListSet c)
        → IsValid m_lists
        → get_list m_lists req.name ≡ some l
        → IsValid (set_in_list c m_lists l req).0
    unfolding set_in_list
    set_in_list-IsValid m_lists l req w e =
        if_elim (λ (r : Lists F × Status). IsValid r.0) (length req.items == 0) (λ _. w)
          λ _.
            if_elim (λ (r : Lists F × Status). IsValid r.0) l.m_sorted (λ _. w)
              λ unsorted.
                if_elim (λ (r : Lists F × Status). IsValid r.0) (is_list_flex_type l.m_flex_type)
                  (λ _.
                    put_list-IsValid m_lists req.name l
                      (visit_items c req.items (λ A o xs list. (set xs req.position list, tt {0}))
                        l.m_list).0
                      w e
                      (visit_items-SameType c req.items
                        (λ A o xs list. (set xs req.position list, tt {0})) l.m_list)
                      (λ sorted. absurd (cc)))
                  (λ _. w)

    -- The handler of ListSet keeps every list well formed.
    pub handle_set-IsValid :
        (m_lists : Lists F) (fbb : FlatBuilder F) (req : ListSet c)
        → IsValid m_lists
        → IsValid (handle_set c m_lists fbb req).0
    unfolding handle_set set_when_found
    handle_set-IsValid m_lists fbb req w = elim (Option-cases (get_list m_lists req.name)) [
      | inl e ↦ rw (have_list_missing m_lists fbb req.name body_list_set e) w
      | inr (l, e) ↦
          rw (have_list_found m_lists fbb req.name body_list_set e)
            (set_in_list-IsValid m_lists l req w e)
    ]
