-- ===== src/ListHandler/Simulation/Intersecting.antt =====
-- The handler of ListIntersect against the abstract store.
use mathlib.Core.Path.{ap₂}
use fcache.Base.{
  ◌≡◌, refl, ap, ◌∙◌, subst, ◌∷◌, Bool, true, false, ◌&&◌, Option, none, some, if◌then◌else◌,
  Bool-cases, inl, inr,
}
use fcache.Value.{Fcstring, ListValue, str_eq}
use fcache.Store
use fcache.Store.Entries.{find-AllValues}
use fcache.FcList.{FcList, make_fc_list, can_intersect_with, flex_type_eq, list_type_of}
use fcache.FcList.WellFormed.{IsWellFormed}
use fcache.Response.{
  FlatBuilder, finish, status_ok, buffer_body, status_fail, body_list_intersect,
  create_empty_body_response,
}
use fcache.ListHandler.Lists.{Lists, get_list, have_list, flex_type_to_list_type}
use fcache.ListHandler.Intersecting.{
  ListIntersect, new_name, intersect_new, fill_new_list, do_intersect, do_intersect_into,
  intersect_when_found, handle_intersect,
}
use fcache.ListHandler.Invariant.{IsValid}
use fcache.ListHandler.Invariant.Filling.{
  empty_like, new_fc_list, flex_type_to_list_type_of, find_first, with_new_list,
  fill_new_list_fresh, fill_new_list_taken,
}
use fcache.ListHandler.Contents.{ListContents, ListStore, put_contents}
use fcache.ListHandler.Contents.Intersecting.{can_intersect, intersection_seen, intersect_seen}
use fcache.ListHandler.Simulation.{contents_of, seen, IsSeen, Refines, seen_if, put_list-IsSeen}

module _ {F : Type 0} ⦃f : ListValue F⦄ where
  can_intersect_with-can_intersect :
      (l1 l2 : FcList F)
      → IsWellFormed l1
      → IsWellFormed l2
      → can_intersect_with l1 l2 ≡ can_intersect (contents_of l1) (contents_of l2)
  unfolding can_intersect_with
  can_intersect_with-can_intersect l1 l2 w1 w2 =
      ap₂ (λ t t'. l1.m_sorted && l2.m_sorted && flex_type_eq t t') w1.0 w2.0

  -- What haveList makes of the lookup of a name.
  abbrev looked_up : FlatBuilder F → Option (FcList F) → Option (FcList F) × FlatBuilder F
  looked_up fbb o = elim o [
    | none ↦ (none, create_empty_body_response fbb status_fail body_list_intersect)
    | some l ↦ (some l, fbb)
  ]

  module _ (m_lists : Lists F) (s : ListStore F) (q : IsSeen m_lists s) where
    -- A list that is put where there was none.
    with_new_list-IsSeen :
        (req : ListIntersect) (name : Fcstring) (l1 l2 : FcList F)
        → IsSeen (with_new_list m_lists name l1 l2 req.list1_range req.list2_range) (
            put_contents s name (record {
              values =
                  intersect_new l1.m_list l2.m_list req.list1_range req.list2_range
                    (empty_like l1.m_list);
              is_sorted = true;
            }))
    unfolding Store.find make_fc_list
    with_new_list-IsSeen req name l1 l2 other =
        let made = new_fc_list l1.m_list in
        let v =
          intersect_new l1.m_list l2.m_list req.list1_range req.list2_range
            (empty_like l1.m_list) in
        put_list-IsSeen ((name, made) ∷ m_lists) (put_contents s name (contents_of made)) name made
          v (λ k. seen_if (str_eq name k) made (get_list m_lists k) (s k) (q k))
          (find_first m_lists name made) other
        ∙ once (str_eq name other) (contents_of made) (record { values = v; is_sorted = true })
      where
        once :
            (same : Bool) (k l : ListContents F)
            → (if same then some l else (if same then some k else s other))
              ≡ (if same then some l else s other)
        once true k l = refl
        once false k l = refl

    do_intersect_into-IsSeen :
        (req : ListIntersect) (l1 l2 : FcList F) (n : Option Fcstring)
        → let r = do_intersect_into m_lists req l1 l2 n (some (list_type_of l1.m_list)) in
          let k = intersection_seen s req (contents_of l1) (contents_of l2) n in
          IsSeen r.0 k.0 × (r.1 ≡ k.1)
    unfolding do_intersect_into
    do_intersect_into-IsSeen req l1 l2 none = (q, refl)
    do_intersect_into-IsSeen req l1 l2 (some name) = (
      subst
          (λ k.
            IsSeen
              (fill_new_list m_lists name (list_type_of l1.m_list) l1 l2 req.list1_range
                req.list2_range)
              (elim k [
                | none ↦ put_contents s name (record {
                  values =
                      intersect_new l1.m_list l2.m_list req.list1_range req.list2_range
                        (empty_like l1.m_list);
                  is_sorted = true;
                })
                | some l ↦ s
              ]))
          (q name) (by_found (get_list m_lists name) refl),
      refl,
    )
      where
        by_found :
            (o : Option (FcList F))
            → get_list m_lists name ≡ o
            → IsSeen
                (fill_new_list m_lists name
                  (list_type_of l1.m_list)
                  l1
                  l2
                  req.list1_range
                  req.list2_range)
                (elim (seen o) [
                  | none ↦ put_contents s name (record {
                    values =
                        intersect_new l1.m_list l2.m_list req.list1_range req.list2_range
                          (empty_like l1.m_list);
                    is_sorted = true;
                  })
                  | some l ↦ s
                ])
        by_found none e =
            rw (fill_new_list_fresh m_lists name l1 l2 req.list1_range req.list2_range e)
              (with_new_list-IsSeen req name l1 l2)
        by_found (some l) e =
            rw (fill_new_list_taken m_lists name l1 l2 req.list1_range req.list2_range l e) q

    do_intersect-IsSeen :
        (req : ListIntersect) (l1 l2 : FcList F)
        → IsWellFormed l1
        → let r = do_intersect m_lists req l1 l2 in
          let k =
            intersection_seen s req
              (contents_of l1)
              (contents_of l2)
              (new_name req.new_list_name) in
          IsSeen r.0 k.0 × (r.1 ≡ k.1)
    unfolding do_intersect
    do_intersect-IsSeen req l1 l2 w =
        let typed : flex_type_to_list_type l1.m_flex_type ≡ some (list_type_of l1.m_list) =
          ap flex_type_to_list_type w.0 ∙ flex_type_to_list_type_of l1.m_list in
        rw typed (do_intersect_into-IsSeen req l1 l2 (new_name req.new_list_name))

    pub handle_intersect-Refines :
        (fbb : FlatBuilder F) (req : ListIntersect)
        → IsValid m_lists
        → Refines
            (handle_intersect m_lists fbb req)
            (intersect_seen s fbb req (s req.list1_name) (s req.list2_name))
    unfolding handle_intersect have_list intersect_when_found
    handle_intersect-Refines fbb req w =
        subst
          (λ k.
            Refines (handle_intersect m_lists fbb req)
              (intersect_seen s fbb req k (s req.list2_name)))
          (q req.list1_name)
          (subst
            (λ k.
              Refines (handle_intersect m_lists fbb req)
                (intersect_seen s fbb req (seen (get_list m_lists req.list1_name)) k))
            (q req.list2_name)
            (by_found (get_list m_lists req.list1_name) (get_list m_lists req.list2_name) refl
              refl))
      where
        both :
            (l1 l2 : FcList F)
            → IsWellFormed l1
            → IsWellFormed l2
            → Refines
                (intersect_when_found m_lists req (some l1) (some l2, fbb))
                (intersect_seen s fbb req (some (contents_of l1)) (some (contents_of l2)))
        both l1 l2 w1 w2 =
            let same = can_intersect_with-can_intersect l1 l2 w1 w2 in
            let r = do_intersect-IsSeen req l1 l2 w1 in
            elim (Bool-cases (can_intersect (contents_of l1) (contents_of l2))) [
              | inl e ↦
                  rw (same, e)
                    (r.0, ap (λ b. finish fbb status_ok body_list_intersect (buffer_body b)) r.1)
              | inr e ↦ rw (same, e) (q, refl)
            ]

        by_found :
            (o o' : Option (FcList F))
            → get_list m_lists req.list1_name ≡ o
            → get_list m_lists req.list2_name ≡ o'
            → Refines
                (intersect_when_found m_lists req
                  (looked_up fbb o).0
                  (looked_up (looked_up fbb o).1 o'))
                (intersect_seen s fbb req (seen o) (seen o'))
        by_found none none e e' = (q, refl)
        by_found none (some l2) e e' = (q, refl)
        by_found (some l1) none e e' = (q, refl)
        by_found (some l1) (some l2) e e' =
            both l1 l2 (find-AllValues IsWellFormed req.list1_name l1 m_lists w e)
              (find-AllValues IsWellFormed req.list2_name l2 m_lists w e')
