-- ===== src/ListHandler/Kinds.antt =====
-- The type of a list and whether it is sorted: what no handler changes.
pub mod Intersecting
use mathlib.Core.Option
use fcache.Base.{
  IfDefined, IfDefined-map, IfDefined-of_all, ◌≡◌, refl, sym, ap, ◌∙◌, List, [], Bool, true, false,
  Option, none, some, length, ◌==◌, if◌then◌else◌, if_elim, Bool-cases, inl, inr,
}
use fcache.Base.Int.{ℤ}
use fcache.Value.{Fcstring, ListValue, str_eq}
use fcache.Value.Order.{str_eq_iff}
use fcache.Store
use fcache.Store.Lookup.{find-assign, find-try_emplace}
use fcache.FcList.{
  FlexItems, FcVariant, FcList, ListType, list_int, list_uint, list_float, list_string, list_other,
  visit_defined, make_fc_list, ints, uints, floats, strings, can_intersect_with,
}
use fcache.Response.{FlatBuilder, Status, status_ok, body_list_remove, create_empty_body_response}
use fcache.Operation.Remove.{remove}
use fcache.Operation.Intersect.{Range}
use fcache.ListHandler.Lists.{
  Lists, Handled, get_list, put_list, create, create_list, is_list_flex_type,
  flex_type_to_list_type,
}
use fcache.ListHandler.Adding.{add_to_list, add_when_found}
use fcache.ListHandler.Changing.{
  ListRemove, remove_when_found, ListRemoveIf, remove_if_when_found, ListSet, set_in_list,
  set_when_found,
}
use fcache.ListHandler.Intersecting.{
  ListIntersect, new_name, fill_found, fill_created, fill_new_list, do_intersect_into, do_intersect,
  intersect_when_found,
}

module _ {F : Type 0} where
  -- Two lists of one type, both sorted or neither.
  abbrev pub SameKind : FcList F → FcList F → Type 0
  SameKind l l' =
      (l'.m_flex_type ≡ l.m_flex_type)
      × (l'.m_list_type ≡ l.m_list_type)
      × (l'.m_sorted ≡ l.m_sorted)

  -- If there is a list of the name, it is still there, and of the same kind.
  abbrev pub KeepsKind : Fcstring → Lists F → Lists F → Type 0
  KeepsKind name before after =
      (l : FcList F)
      → get_list before name ≡ some l
      → (l' : FcList F) × (get_list after name ≡ some l') × SameKind l l'

  pub kind_all : (name : Fcstring) (m_lists : Lists F) → KeepsKind name m_lists m_lists
  kind_all name m_lists l e = (l, e, (refl, refl, refl))

  pub kind_trans :
      (name : Fcstring) (first second third : Lists F)
      → KeepsKind name first second
      → KeepsKind name second third
      → KeepsKind name first third
  kind_trans name first second third h k l e =
      let (l', e', same) = h l e in
      let (l'', e'', same') = k l' e' in
      (l'', e'', (same'.0 ∙ same.0, same'.1 ∙ same.1, same'.2 ∙ same.2))

  -- Two names that are the same find the same list.
  same_list :
      (m_lists : Lists F) (name other : Fcstring) (l : FcList F)
      → get_list m_lists other ≡ some l
      → str_eq name other ≡ true
      → get_list m_lists name ≡ some l
  same_list m_lists name other l e same = ap (get_list m_lists) ((str_eq_iff name other).0 same) ∙ e

  pub kind_put :
      (m_lists : Lists F) (other name : Fcstring) (l : FcList F) (list : FcVariant F)
      → get_list m_lists name ≡ some l
      → KeepsKind other m_lists (put_list m_lists name l list)
  kind_put m_lists other name l list found old e =
      let new = record l { m_list = list } in
      let put = find-assign name other new m_lists in
      elim (Bool-cases (str_eq name other)) [
        | inl same ↦
            (let both : some l ≡ some old = sym found ∙ same_list m_lists name other old e same in
              let here : l ≡ old = cc in
              (
                new,
                put ∙ rw (same, found) refl,
                (
                  ap (λ (k : FcList F). k.m_flex_type) here,
                  ap (λ (k : FcList F). k.m_list_type) here,
                  ap (λ (k : FcList F). k.m_sorted) here,
                ),
              ))
        | inr differs ↦ (old, put ∙ rw differs e, (refl, refl, refl))
      ]

  kind_create :
      (m_lists : Lists F) (other name : Fcstring) (list : FcVariant F) (sorted : Bool)
      → KeepsKind other m_lists (create m_lists name list sorted).0
  unfolding create
  kind_create m_lists other name list sorted l e =
      let made = find-try_emplace name other (make_fc_list list sorted) m_lists in
      elim (Bool-cases (str_eq name other)) [
        | inl same ↦
            (l, made ∙ rw (same, same_list m_lists name other l e same) refl, (refl, refl, refl))
        | inr differs ↦ (l, made ∙ rw differs e, (refl, refl, refl))
      ]

  pub kind_create_list :
      (m_lists : Lists F) (other name : Fcstring) (list_type : ListType) (sorted : Bool)
      → KeepsKind other m_lists (create_list m_lists name list_type sorted).0
  unfolding create_list
  kind_create_list m_lists other name list_int sorted =
      kind_create m_lists other name (ints []) sorted
  kind_create_list m_lists other name list_uint sorted =
      kind_create m_lists other name (uints []) sorted
  kind_create_list m_lists other name list_float sorted =
      kind_create m_lists other name (floats []) sorted
  kind_create_list m_lists other name list_string sorted =
      kind_create m_lists other name (strings []) sorted
  kind_create_list m_lists other name list_other sorted = kind_all other m_lists

  pub kind_remove :
      (m_lists : Lists F) (other : Fcstring) (req : ListRemove)
      (o : Option (FcList F) × FlatBuilder F)
      → get_list m_lists req.name ≡ o.0
      → IfDefined (λ (r : Handled F). KeepsKind other m_lists r.0) (remove_when_found m_lists req o)
  unfolding remove_when_found
  kind_remove m_lists other req (none, fbb) e = kind_all other m_lists
  kind_remove m_lists other req (some l, fbb) e =
      let removed =
        visit_defined (λ A list. remove req.range.start req.range.stop req.range.has_stop list)
          l.m_list in
      IfDefined-map (λ (r : Handled F). KeepsKind other m_lists r.0)
        (λ list. (
          put_list m_lists req.name l list,
          create_empty_body_response fbb status_ok body_list_remove,
        ))
        removed
        (IfDefined-of_all (λ list. KeepsKind other m_lists (put_list m_lists req.name l list))
          removed (λ list. kind_put m_lists other req.name l list e))

module _ {F : Type 0} ⦃f : ListValue F⦄ where
  pub kind_remove_if :
      (m_lists : Lists F) (other : Fcstring) (req : ListRemoveIf F)
      (o : Option (FcList F) × FlatBuilder F)
      → get_list m_lists req.name ≡ o.0
      → KeepsKind other m_lists (remove_if_when_found m_lists req o).0
  unfolding remove_if_when_found
  kind_remove_if m_lists other req (none, fbb) e = kind_all other m_lists
  kind_remove_if m_lists other req (some l, fbb) e = kind_put m_lists other req.name l _ e

  module _ (c : FlexItems F) where
    pub kind_add :
        (m_lists : Lists F) (other name : Fcstring) (items : List c.Ref) (is_append : Bool)
        (position : ℤ) (items_sorted : Bool) (o : Option (FcList F) × FlatBuilder F)
        → get_list m_lists name ≡ o.0
        → KeepsKind other m_lists
            (add_when_found c m_lists name items is_append position items_sorted o).0
    unfolding add_when_found add_to_list
    kind_add m_lists other name items is_append position items_sorted (none, fbb) e =
        kind_all other m_lists
    kind_add m_lists other name items is_append position items_sorted (some l, fbb) e =
        if_elim (λ (r : Handled F). KeepsKind other m_lists r.0) (length items == 0)
          (λ _. kind_all other m_lists)
          (λ _.
            if_elim (λ (r : Handled F). KeepsKind other m_lists r.0)
              (is_list_flex_type l.m_flex_type) (λ _. kind_put m_lists other name l _ e)
              (λ _. kind_all other m_lists))

    pub kind_set :
        (m_lists : Lists F) (other : Fcstring) (req : ListSet c)
        (o : Option (FcList F) × FlatBuilder F)
        → get_list m_lists req.name ≡ o.0
        → KeepsKind other m_lists (set_when_found c m_lists req o).0
    unfolding set_when_found set_in_list
    kind_set m_lists other req (none, fbb) e = kind_all other m_lists
    kind_set m_lists other req (some l, fbb) e =
        let P = λ (r : Lists F × Status). KeepsKind other m_lists r.0 in
        if_elim P (length req.items == 0) (λ _. kind_all other m_lists)
          (λ _.
            if_elim P l.m_sorted (λ _. kind_all other m_lists)
              (λ _.
                if_elim P (is_list_flex_type l.m_flex_type)
                  (λ _. kind_put m_lists other req.name l _ e) (λ _. kind_all other m_lists)))
