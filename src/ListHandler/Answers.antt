-- ===== src/ListHandler/Answers.antt =====
-- Every handler of ListHandler answers with the type of its request, if there are items where the
-- request has some to add.
use mathlib.Core.Option
use fcache.Base.{
  ◌<◌, ◌≡◌, refl, ◌∙◌, subst, List, Bool, true, false, Option, none, some, length, ◌==◌, if_elim,
  Option-cases, inl, inr, arith,
}
use fcache.Base.Int.{ℤ, pos}
use fcache.Value.{Fcstring, ListValue}
use fcache.FcList.{FlexItems, FcVariant, FcList, can_intersect_with, visit_defined}
use fcache.Operation.Remove.{remove}
use fcache.Response.{
  ResponseBody, body_list_add, body_list_append, body_list_set, body_list_remove,
  body_list_remove_if, body_list_get_range, body_list_info, body_list_intersect, FlatBuilder,
  Answers, status_ok, status_fail, create_empty_body_response,
}
use fcache.ListHandler.Lists.{Lists, Handled, get_list, have_list, put_list, is_list_flex_type}
use fcache.ListHandler.Found.{have_list_missing, have_list_found, have_list-get_list}
use fcache.ListHandler.Adding.{
  ListAdd, ListAppend, add_body_type, add_to_list, add_when_found, handle_add, handle_append,
}
use fcache.ListHandler.Changing.{
  ListRemove, ListRemoveIf, ListSet, remove_when_found, remove_if_when_found, set_when_found,
  handle_remove, handle_remove_if, handle_set,
}
use fcache.ListHandler.Reading.{
  ListGetRange, ListInfo, get_range_when_found, handle_get_range, handle_info,
}
use fcache.ListHandler.Intersecting.{ListIntersect, intersect_when_found, handle_intersect}

module _ {F : Type 0} (m_lists : Lists F) (fbb : FlatBuilder F) (name : Fcstring)
    (t : ResponseBody) where
  have_list_missing-Answers :
      get_list m_lists name ≡ none → Answers t (have_list m_lists fbb name t).1
  have_list_missing-Answers e = rw (have_list_missing m_lists fbb name t e) refl

  -- A builder that is answered stays so.
  have_list-Answers : Answers t fbb → Answers t (have_list m_lists fbb name t).1
  have_list-Answers a = elim (Option-cases (get_list m_lists name)) [
    | inl e ↦ have_list_missing-Answers e
    | inr (l, e) ↦ rw (have_list_found m_lists fbb name t e) a
  ]

module _ {F : Type 0} ⦃f : ListValue F⦄ (m_lists : Lists F) (fbb : FlatBuilder F) where
  module _ (c : FlexItems F) where
    add_to_list-Answers :
        (name : Fcstring) (l : FcList F) (items : List c.Ref) (is_append : Bool) (position : ℤ)
        (items_sorted : Bool)
        → Answers
            (add_body_type c is_append)
            (add_to_list c m_lists fbb name l items is_append position items_sorted).1
    unfolding add_to_list
    add_to_list-Answers name l items is_append position items_sorted =
        if_elim (λ (r : Handled F). Answers (add_body_type c is_append) r.1)
          (is_list_flex_type l.m_flex_type) (λ _. refl) (λ _. refl)

    do_add_append-Answers :
        (name : Fcstring) (items : List c.Ref) (is_append : Bool) (position : ℤ)
        (items_sorted : Bool)
        → 0 < length items
        → Answers
            (add_body_type c is_append)
            (add_when_found c m_lists name items is_append position items_sorted
              (have_list m_lists fbb name (add_body_type c is_append))).1
    unfolding add_when_found
    do_add_append-Answers name items is_append position items_sorted n =
        elim (Option-cases (get_list m_lists name)) [
          | inl e ↦ rw (have_list_missing m_lists fbb name (add_body_type c is_append) e) refl
          | inr (l, e) ↦ rw (have_list_found m_lists fbb name (add_body_type c is_append) e) (
              if_elim (λ (r : Handled F). Answers (add_body_type c is_append) r.1)
                (length items == 0) (λ empty. absurd (ground arith))
                (λ _. add_to_list-Answers name l items is_append position items_sorted))
        ]

    pub handle_add-Answers :
        (req : ListAdd c)
        → 0 < length req.items
        → Answers body_list_add (handle_add c m_lists fbb req).1
    unfolding handle_add
    handle_add-Answers req =
        do_add_append-Answers req.name req.items false req.position req.items_sorted

    pub handle_append-Answers :
        (req : ListAppend c)
        → 0 < length req.items
        → Answers body_list_append (handle_append c m_lists fbb req).1
    unfolding handle_append
    handle_append-Answers req = do_add_append-Answers req.name req.items true (pos 0) false

    pub handle_set-Answers :
        (req : ListSet c) → Answers body_list_set (handle_set c m_lists fbb req).1
    unfolding handle_set set_when_found
    handle_set-Answers req = elim (Option-cases (get_list m_lists req.name)) [
      | inl e ↦ rw (have_list_missing m_lists fbb req.name body_list_set e) refl
      | inr (l, e) ↦ rw (have_list_found m_lists fbb req.name body_list_set e) refl
    ]

  pub handle_remove-Answers :
      (req : ListRemove) (r : Handled F)
      → handle_remove m_lists fbb req ≡ some r
      → Answers body_list_remove r.1
  unfolding handle_remove remove_when_found
  handle_remove-Answers req r = by_lookup (have_list m_lists fbb req.name body_list_remove)
    where
      last_of_some :
          (q : Handled F)
          → some q ≡ some r
          → Answers body_list_remove q.1
          → Answers body_list_remove r.1
      last_of_some q e a =
          let same : q ≡ r = cc in subst (λ (h : Handled F). Answers body_list_remove h.1) same a

      of_map :
          (fbb' : FlatBuilder F) (g : FcVariant F → Lists F) (o : Option (FcVariant F))
          → Option.map (λ v. (g v, create_empty_body_response fbb' status_ok body_list_remove)) o
            ≡ some r
          → Answers body_list_remove r.1
      of_map fbb' g none e = absurd (cc)
      of_map fbb' g (some v) e =
          last_of_some (g v, create_empty_body_response fbb' status_ok body_list_remove) e refl

      by_lookup :
          (found : Option (FcList F) × FlatBuilder F)
          → remove_when_found m_lists req found ≡ some r
          → Answers body_list_remove r.1
      by_lookup (none, fbb') e =
          last_of_some (m_lists, create_empty_body_response fbb' status_ok body_list_remove) e refl
      by_lookup (some l, fbb') e =
          of_map fbb' (put_list m_lists req.name l)
            (visit_defined (λ A list. remove req.range.start req.range.stop req.range.has_stop list)
              l.m_list)
            e

  pub handle_remove_if-Answers :
      (req : ListRemoveIf F) → Answers body_list_remove_if (handle_remove_if m_lists fbb req).1
  unfolding handle_remove_if remove_if_when_found
  handle_remove_if-Answers req = elim (Option-cases (get_list m_lists req.name)) [
    | inl e ↦ rw (have_list_missing m_lists fbb req.name body_list_remove_if e) refl
    | inr (l, e) ↦ rw (have_list_found m_lists fbb req.name body_list_remove_if e) refl
  ]

  pub handle_get_range-Answers :
      (req : ListGetRange) → Answers body_list_get_range (handle_get_range m_lists fbb req)
  unfolding handle_get_range get_range_when_found
  handle_get_range-Answers req = elim (Option-cases (get_list m_lists req.name)) [
    | inl e ↦ rw (have_list_missing m_lists fbb req.name body_list_get_range e) refl
    | inr (l, e) ↦ rw (have_list_found m_lists fbb req.name body_list_get_range e) refl
  ]

  pub handle_info-Answers : (req : ListInfo) → Answers body_list_info (handle_info m_lists fbb req)
  unfolding handle_info
  handle_info-Answers req = elim (Option-cases (get_list m_lists req.name)) [
    | inl e ↦ rw (e, handle_info) refl
    | inr (l, e) ↦ rw (e, handle_info) refl
  ]

  intersect_when_found-Answers :
      (req : ListIntersect) (list1 : FcList F) (list2 : Option (FcList F)) (fbb' : FlatBuilder F)
      → (list2 ≡ none → Answers body_list_intersect fbb')
      → Answers body_list_intersect (intersect_when_found m_lists req (some list1) (list2, fbb')).1
  unfolding intersect_when_found
  intersect_when_found-Answers req list1 none fbb' a = a refl
  intersect_when_found-Answers req list1 (some list2) fbb' a =
      if_elim (λ (r : Handled F). Answers body_list_intersect r.1) (can_intersect_with list1 list2)
        (λ _. refl) (λ _. refl)

  pub handle_intersect-Answers :
      (req : ListIntersect) → Answers body_list_intersect (handle_intersect m_lists fbb req).1
  unfolding handle_intersect intersect_when_found
  handle_intersect-Answers req =
      let t = body_list_intersect in
      elim (Option-cases (get_list m_lists req.list1_name)) [
        | inl e ↦ rw (have_list_missing m_lists fbb req.list1_name t e) (
            have_list-Answers m_lists (create_empty_body_response fbb status_fail t) req.list2_name
              t refl)
        | inr (l, e) ↦
            let second = have_list m_lists fbb req.list2_name t in
            rw (have_list_found m_lists fbb req.list1_name t e) (
              intersect_when_found-Answers req l second.0 second.1 (λ absent.
                have_list_missing-Answers m_lists fbb req.list2_name t
                  (have_list-get_list m_lists fbb req.list2_name t ∙ absent)))
      ]
