-- ===== src/ListHandler/Frame.antt =====
-- What a handler leaves alone: the lists that its request does not name.
pub mod Intersecting
use mathlib.Core.Option
use fcache.Base.{
  IfDefined, IfDefined-map, IfDefined-of_all, ◌≡◌, refl, sym, ap, ◌∙◌, subst, List, [], ◌∷◌, Bool,
  true, false, ◌||◌, Option, none, some, length, ◌==◌, if◌then◌else◌, if_elim, Bool-cases,
  Option-cases, inl, inr, ℕ, arith,
}
use fcache.Base.Int.{ℤ, pos}
use fcache.Value.{Fcstring, ListValue, str_eq}
use fcache.Store
use fcache.Store.Lookup.{find-assign, find-try_emplace, find-erase}
use fcache.FcList.{
  FlexItems, FcVariant, FcList, ListType, list_int, list_uint, list_float, list_string, list_other,
  visit_items, visit_defined, make_fc_list, can_intersect_with, ints, uints, floats, strings,
}
use fcache.Response.{
  FlatBuilder, ResponseBody, Status, status_ok, status_fail, status_duplicate, body_list_remove,
  create_empty_body_response,
}
use fcache.Operation.GetByRange.{Base}
use fcache.Operation.Remove.{remove}
use fcache.Operation.Set.{set}
use fcache.Operation.Intersect.{Range}
use fcache.ListHandler.Lists.{
  Lists, Handled, ListCreate, get_list, put_list, have_list, create, create_list, handle_create,
  is_list_flex_type, flex_type_to_list_type,
}
use fcache.ListHandler.Adding.{
  ListAdd, ListAppend, add_to_list, add_when_found, do_add_append, handle_add, handle_append,
}
use fcache.ListHandler.Changing.{
  ListDelete, erase_each, delete_lists, handle_delete, ListRemove, remove_when_found, handle_remove,
  ListRemoveIf, remove_if_when_found, handle_remove_if, ListSet, set_in_list, set_when_found,
  handle_set,
}
use fcache.ListHandler.Intersecting.{
  ListIntersect, new_name, fill_found, fill_created, fill_new_list, do_intersect_into, do_intersect,
  intersect_when_found, handle_intersect,
}

-- Whether a request to delete names a list: all of them, if it has no names.
abbrev pub is_among : List Fcstring → Fcstring → Bool
is_among [] other = false
is_among (n ∷ names) other = str_eq n other || is_among names other

abbrev pub is_deleted : List Fcstring → Fcstring → Bool
is_deleted [] other = true
is_deleted (n ∷ names) other = is_among (n ∷ names) other

-- The new list of a request to intersect, if it names one.
abbrev pub is_new : Option Fcstring → Fcstring → Bool
is_new none other = false
is_new (some name) other = str_eq name other

module _ {F : Type 0} where
  -- Every list but the named one is as it was.
  abbrev pub KeepsOthers : Fcstring → Lists F → Lists F → Type 0
  KeepsOthers name before after =
      (other : Fcstring) → str_eq name other ≡ false → get_list after other ≡ get_list before other

  pub keeps_all : (m_lists : Lists F) (name : Fcstring) → KeepsOthers name m_lists m_lists
  keeps_all m_lists name other differs = refl

  pub keeps_put :
      (m_lists : Lists F) (name : Fcstring) (l : FcList F) (list : FcVariant F)
      → KeepsOthers name m_lists (put_list m_lists name l list)
  keeps_put m_lists name l list other differs =
      find-assign name other (record l { m_list = list }) m_lists ∙ rw differs refl

  keeps_create :
      (m_lists : Lists F) (name : Fcstring) (list : FcVariant F) (sorted : Bool)
      → KeepsOthers name m_lists (create m_lists name list sorted).0
  unfolding create
  keeps_create m_lists name list sorted other differs =
      find-try_emplace name other (make_fc_list list sorted) m_lists ∙ rw differs refl

  pub keeps_create_list :
      (m_lists : Lists F) (name : Fcstring) (list_type : ListType) (sorted : Bool)
      → KeepsOthers name m_lists (create_list m_lists name list_type sorted).0
  unfolding create_list
  keeps_create_list m_lists name list_int sorted = keeps_create m_lists name (ints []) sorted
  keeps_create_list m_lists name list_uint sorted = keeps_create m_lists name (uints []) sorted
  keeps_create_list m_lists name list_float sorted = keeps_create m_lists name (floats []) sorted
  keeps_create_list m_lists name list_string sorted = keeps_create m_lists name (strings []) sorted
  keeps_create_list m_lists name list_other sorted = keeps_all m_lists name

  -- ListDelete deletes the lists that it names and no others.
  erase_each_lem :
      (names : List Fcstring) (m_lists : Lists F) (other : Fcstring)
      → get_list (erase_each names m_lists) other
        ≡ (if is_among names other then none else get_list m_lists other)
  unfolding erase_each
  erase_each_lem [] m_lists other = refl
  erase_each_lem (n ∷ names) m_lists other =
      erase_each_lem names (Store.erase n m_lists) other
      ∙ rw (find-erase n other m_lists) (ground arith)

  pub delete_lists_lem :
      (names : List Fcstring) (m_lists : Lists F) (other : Fcstring)
      → get_list (delete_lists names m_lists) other
        ≡ (if is_deleted names other then none else get_list m_lists other)
  unfolding delete_lists Store.find
  delete_lists_lem [] m_lists other = refl
  delete_lists_lem (n ∷ names) m_lists other = erase_each_lem (n ∷ names) m_lists other

  pub keeps_remove :
      (m_lists : Lists F) (req : ListRemove) (o : Option (FcList F) × FlatBuilder F)
      → IfDefined
          (λ (r : Handled F). KeepsOthers req.name m_lists r.0)
          (remove_when_found m_lists req o)
  unfolding remove_when_found
  keeps_remove m_lists req (none, fbb) = keeps_all m_lists req.name
  keeps_remove m_lists req (some l, fbb) =
      let removed =
        visit_defined (λ A list. remove req.range.start req.range.stop req.range.has_stop list)
          l.m_list in
      IfDefined-map (λ (r : Handled F). KeepsOthers req.name m_lists r.0)
        (λ list. (
          put_list m_lists req.name l list,
          create_empty_body_response fbb status_ok body_list_remove,
        ))
        removed
        (IfDefined-of_all (λ list. KeepsOthers req.name m_lists (put_list m_lists req.name l list))
          removed (λ list. keeps_put m_lists req.name l list))

module _ {F : Type 0} ⦃f : ListValue F⦄ where
  pub keeps_remove_if :
      (m_lists : Lists F) (req : ListRemoveIf F) (o : Option (FcList F) × FlatBuilder F)
      → KeepsOthers req.name m_lists (remove_if_when_found m_lists req o).0
  unfolding remove_if_when_found
  keeps_remove_if m_lists req (none, fbb) = keeps_all m_lists req.name
  keeps_remove_if m_lists req (some l, fbb) = keeps_put m_lists req.name l _

  module _ (c : FlexItems F) where
    pub keeps_add :
        (m_lists : Lists F) (name : Fcstring) (items : List c.Ref) (is_append : Bool) (position : ℤ)
        (items_sorted : Bool) (o : Option (FcList F) × FlatBuilder F)
        → KeepsOthers name m_lists
            (add_when_found c m_lists name items is_append position items_sorted o).0
    unfolding add_when_found add_to_list
    keeps_add m_lists name items is_append position items_sorted (none, fbb) =
        keeps_all m_lists name
    keeps_add m_lists name items is_append position items_sorted (some l, fbb) =
        if_elim (λ (r : Handled F). KeepsOthers name m_lists r.0) (length items == 0)
          (λ e. keeps_all m_lists name)
          (λ e.
            if_elim (λ (r : Handled F). KeepsOthers name m_lists r.0)
              (is_list_flex_type l.m_flex_type) (λ e. keeps_put m_lists name l _)
              (λ e. keeps_all m_lists name))

    pub keeps_set :
        (m_lists : Lists F) (req : ListSet c) (o : Option (FcList F) × FlatBuilder F)
        → KeepsOthers req.name m_lists (set_when_found c m_lists req o).0
    unfolding set_when_found set_in_list
    keeps_set m_lists req (none, fbb) = keeps_all m_lists req.name
    keeps_set m_lists req (some l, fbb) =
        let P = λ (r : Lists F × Status). KeepsOthers req.name m_lists r.0 in
        if_elim P (length req.items == 0) (λ e. keeps_all m_lists req.name)
          (λ e.
            if_elim P l.m_sorted (λ e. keeps_all m_lists req.name)
              (λ e.
                if_elim P (is_list_flex_type l.m_flex_type) (λ e. keeps_put m_lists req.name l _)
                  (λ e. keeps_all m_lists req.name)))
