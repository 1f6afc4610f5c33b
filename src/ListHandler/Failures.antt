-- ===== src/ListHandler/Failures.antt =====
-- A list request that is answered with a failure (ListHandler.cpp) leaves the lists as they were.
use fcache.Base.{
  IfDefined, IfDefined-map, IfDefined-of_all, ◌≡◌, refl, List, [], Bool, Option, none, some, length,
  ◌==◌, if_elim, Option-cases, inl, inr,
}
use fcache.Base.Int.{ℤ}
use fcache.Value.{Fcstring, ListValue}
use fcache.Store
use fcache.FcList.{
  FlexItems, FcVariant, FcList, ListType, list_int, list_uint, list_float, list_string, list_other,
  ints, uints, floats, strings, can_intersect_with, visit_defined,
}
use fcache.Response.{
  Status, status_ok, FlatBuilder, body_list_remove, IsFailure, create_empty_body_response,
}
use fcache.Operation.Remove.{remove}
use fcache.ListHandler.Lists.{
  Lists, Handled, ListCreate, create, create_list, handle_create, put_list, is_list_flex_type,
}
use fcache.ListHandler.Adding.{add_to_list, add_when_found}
use fcache.ListHandler.Changing.{
  ListRemove, ListRemoveIf, ListSet, remove_when_found, remove_if_when_found, set_in_list,
  set_when_found,
}
use fcache.ListHandler.Intersecting.{ListIntersect, intersect_when_found}

module _ {F : Type 0} where
  -- The lists are as they were, if what was finished last is a failure.
  abbrev pub FailsUnchanged : Lists F → Handled F → Type 0
  FailsUnchanged m_lists r = IsFailure r.1 → r.0 ≡ m_lists

  -- The same of a call that returns a status.
  abbrev HasChangedOk : Lists F → Lists F × Status → Type 0
  HasChangedOk m_lists r = (r.1 ≡ status_ok → ⊥) → r.0 ≡ m_lists

  create-HasChangedOk :
      (m_lists : Lists F) (name : Fcstring) (list : FcVariant F) (sorted : Bool)
      → HasChangedOk m_lists (create m_lists name list sorted)
  unfolding create Store.try_emplace
  create-HasChangedOk m_lists name list sorted = elim (Option-cases (Store.find name m_lists)) [
    | inl e ↦ rw (e, create, Store.try_emplace) (λ failed. absurd (failed refl))
    | inr (l, e) ↦ rw (e, create, Store.try_emplace) (λ failed. refl)
  ]

  create_list-HasChangedOk :
      (m_lists : Lists F) (name : Fcstring) (list_type : ListType) (sorted : Bool)
      → HasChangedOk m_lists (create_list m_lists name list_type sorted)
  unfolding create_list
  create_list-HasChangedOk m_lists name list_int = create-HasChangedOk m_lists name (ints [])
  create_list-HasChangedOk m_lists name list_uint = create-HasChangedOk m_lists name (uints [])
  create_list-HasChangedOk m_lists name list_float = create-HasChangedOk m_lists name (floats [])
  create_list-HasChangedOk m_lists name list_string = create-HasChangedOk m_lists name (strings [])
  create_list-HasChangedOk m_lists name list_other = λ sorted failed. refl

  pub handle_create-FailsUnchanged :
      (m_lists : Lists F) (fbb : FlatBuilder F) (req : ListCreate)
      → FailsUnchanged m_lists (handle_create m_lists fbb req)
  unfolding handle_create
  handle_create-FailsUnchanged m_lists fbb req =
      create_list-HasChangedOk m_lists req.name req.list_type req.sorted

  pub remove_when_found-FailsUnchanged :
      (m_lists : Lists F) (req : ListRemove) (found : Option (FcList F) × FlatBuilder F)
      → IfDefined (FailsUnchanged m_lists) (remove_when_found m_lists req found)
  unfolding remove_when_found
  remove_when_found-FailsUnchanged m_lists req (none, fbb) = λ failed. refl
  remove_when_found-FailsUnchanged m_lists req (some l, fbb) =
      let removed =
        visit_defined (λ A list. remove req.range.start req.range.stop req.range.has_stop list)
          l.m_list in
      IfDefined-map (FailsUnchanged m_lists)
        (λ list. (
          put_list m_lists req.name l list,
          create_empty_body_response fbb status_ok body_list_remove,
        ))
        removed
        (IfDefined-of_all
          (λ (list : FcVariant F). FailsUnchanged m_lists (
            put_list m_lists req.name l list,
            create_empty_body_response fbb status_ok body_list_remove,
          ))
          removed (λ list failed. absurd (failed refl)))

module _ {F : Type 0} ⦃f : ListValue F⦄ (m_lists : Lists F) where
  pub remove_if_when_found-FailsUnchanged :
      (req : ListRemoveIf F) (found : Option (FcList F) × FlatBuilder F)
      → FailsUnchanged m_lists (remove_if_when_found m_lists req found)
  unfolding remove_if_when_found
  remove_if_when_found-FailsUnchanged req (none, fbb) failed = refl
  remove_if_when_found-FailsUnchanged req (some l, fbb) failed = absurd (failed refl)

  pub intersect_when_found-FailsUnchanged :
      (req : ListIntersect) (list1 : Option (FcList F)) (found : Option (FcList F) × FlatBuilder F)
      → FailsUnchanged m_lists (intersect_when_found m_lists req list1 found)
  unfolding intersect_when_found
  intersect_when_found-FailsUnchanged req none (list2, fbb) = λ failed. refl
  intersect_when_found-FailsUnchanged req (some list1) (none, fbb) = λ failed. refl
  intersect_when_found-FailsUnchanged req (some list1) (some list2, fbb) =
      if_elim (FailsUnchanged m_lists) (can_intersect_with list1 list2)
        (λ _ failed. absurd (failed refl)) (λ _ failed. refl)

  module _ (c : FlexItems F) where
    pub add_when_found-FailsUnchanged :
        (name : Fcstring) (items : List c.Ref) (is_append : Bool) (position : ℤ)
        (items_sorted : Bool) (found : Option (FcList F) × FlatBuilder F)
        → FailsUnchanged m_lists
            (add_when_found c m_lists name items is_append position items_sorted found)
    unfolding add_when_found add_to_list
    add_when_found-FailsUnchanged name items is_append position items_sorted (none, fbb) =
        λ failed. refl
    add_when_found-FailsUnchanged name items is_append position items_sorted (some l, fbb) =
        if_elim (FailsUnchanged m_lists) (length items == 0) (λ _ failed. refl)
          (λ _.
            if_elim (FailsUnchanged m_lists) (is_list_flex_type l.m_flex_type)
              (λ _ failed. absurd (failed refl)) (λ _ failed. refl))

    set_in_list-HasChangedOk :
        (l : FcList F) (req : ListSet c) → HasChangedOk m_lists (set_in_list c m_lists l req)
    unfolding set_in_list
    set_in_list-HasChangedOk l req =
        if_elim (HasChangedOk m_lists) (length req.items == 0) (λ _ failed. refl)
          (λ _.
            if_elim (HasChangedOk m_lists) l.m_sorted (λ _ failed. refl)
              (λ _.
                if_elim (HasChangedOk m_lists) (is_list_flex_type l.m_flex_type)
                  (λ _ failed. absurd (failed refl)) (λ _ failed. refl)))

    pub set_when_found-FailsUnchanged :
        (req : ListSet c) (found : Option (FcList F) × FlatBuilder F)
        → FailsUnchanged m_lists (set_when_found c m_lists req found)
    unfolding set_when_found
    set_when_found-FailsUnchanged req (none, fbb) = λ failed. refl
    set_when_found-FailsUnchanged req (some l, fbb) = set_in_list-HasChangedOk l req
