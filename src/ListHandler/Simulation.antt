-- ===== src/ListHandler/Simulation.antt =====
-- The list handlers against the abstract store: what it is for lists to be those of the store.
pub mod Reading
pub mod Removing
pub mod Adding
pub mod Setting
pub mod Intersecting
use mathlib.Core.Option
use mathlib.Core.Path.{ap₂}
use fcache.Base.{
  IfDefined, ◌%◌, ◌^◌, ◌≡◌, refl, sym, ap, ◌∙◌, subst, List, [], Bool, true, false, Option, none,
  some, if◌then◌else◌, Option-cases, inl, inr,
}
use fcache.Value.{Fcstring, ListValue, str_eq}
use fcache.Store
use fcache.Store.Lookup.{find-assign, find-try_emplace}
use fcache.FcList.{
  list_int, list_uint, list_float, list_string, list_other, FcVariant, ints, uints, strings, floats,
  FcList, make_fc_list, visit_read, variant_size, list_type_of, visit_defined,
}
use fcache.FcList.WellFormed.{IsWellFormed, IsVariantSorted}
use fcache.Store.Entries.{find-AllValues}
use fcache.Response.{
  FlatBuilder, finish, size_body, status_ok, status_fail, status_duplicate, body_list_create,
  body_list_remove, body_list_remove_if, body_list_get_range, body_list_info, info_body,
  create_empty_body_response,
}
use fcache.Operation.Remove.{remove}
use fcache.Operation.RemoveIf.Equal.{remove_if_equals_sorted}
use fcache.Operation.Intersect.{Range, info}
use fcache.Value.Order.{int_value, uint_value, string_value}
use fcache.ListHandler.Lists.{
  Lists, Handled, ListCreate, get_list, put_list, have_list, create, create_list, handle_create,
}
use fcache.ListHandler.Changing.{
  ListDelete, ListRemove, ListRemoveIf, RequestValue, value_none, value_int, value_uint,
  value_string, value_float, delete_lists, handle_delete, remove_when_found, handle_remove,
  do_remove_if_equals, remove_if_when_found, handle_remove_if,
}
use fcache.ListHandler.Reading.{
  ListGetRange, ListInfo, get_range_when_found, handle_get_range, handle_info,
}
use fcache.ListHandler.Frame.{is_deleted, delete_lists_lem}
use fcache.ListHandler.Invariant.{IsValid}
use fcache.ListHandler.Contents.{
  ListContents, ListStore, Specified, no_lists, put_contents, empty_of, spec_create, create_seen,
  spec_delete, range_seen, info_seen, removed_seen, remove_seen, remove_if_seen,
}

module _ {F : Type 0} where
  abbrev pub contents_of : FcList F → ListContents F
  contents_of l = record { values = l.m_list; is_sorted = l.m_sorted }

  abbrev pub seen : Option (FcList F) → Option (ListContents F)
  seen none = none
  seen (some l) = some (contents_of l)

  -- The lists are those of the store.
  abbrev pub IsSeen : Lists F → ListStore F → Type 0
  IsSeen m_lists s = (name : Fcstring) → seen (get_list m_lists name) ≡ s name

  -- A handler does what the store does, and answers as it says.
  abbrev pub Refines : Handled F → Specified F → Type 0
  Refines r s = IsSeen r.0 s.0 × (r.1 ≡ s.1)

  pub seen_if :
      (same : Bool) (l : FcList F) (o : Option (FcList F)) (k : Option (ListContents F))
      → seen o ≡ k
      → seen (if same then some l else o) ≡ (if same then some (contents_of l) else k)
  seen_if true l o k e = refl
  seen_if false l o k e = e

  pub put_list-IsSeen :
      (m_lists : Lists F) (s : ListStore F) (name : Fcstring) (l : FcList F) (v : FcVariant F)
      → IsSeen m_lists s
      → get_list m_lists name ≡ some l
      → IsSeen
          (put_list m_lists name l v)
          (put_contents s name (record { values = v; is_sorted = l.m_sorted }))
  put_list-IsSeen m_lists s name l v q e other =
      ap seen (find-assign name other (record l { m_list = v }) m_lists ∙ rw e refl)
      ∙ seen_if (str_eq name other) (record l { m_list = v }) (get_list m_lists other) (s other)
          (q other)
