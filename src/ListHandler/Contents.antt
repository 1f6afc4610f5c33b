-- ===== src/ListHandler/Contents.antt =====
-- The lists as the clients see them: an abstract store, and what each request does to it and is
-- answered with. It holds for each name a list or none: its nodes, and whether it is a sorted one.
pub mod Adding
pub mod Intersecting
use fcache.Base.{
  ◌%◌, ◌^◌, List, [], map, Bool, true, false, Option, none, some, length, ◌==◌, ◌&&◌, if◌then◌else◌,
}
use fcache.Base.Int.{ℤ}
use fcache.Value.{Fcstring, ListValue, str_eq}
use fcache.FcList.{
  ListType, list_int, list_uint, list_float, list_string, list_other, FlexItems, FcVariant, ints,
  uints, strings, floats, flex_type_of, flex_type_eq, list_type_of, variant_size, visit_defined,
}
use fcache.Response.{
  status_fail, status_ok, status_duplicate, status_not_permitted, body_list_create,
  body_list_delete, body_list_get_range, body_list_info, body_list_remove, body_list_remove_if,
  body_list_set, body_list_intersect, FlatBuilder, FlexBuffer, empty_vector, finish, size_body,
  buffer_body, info_body, create_empty_body_response,
}
use fcache.Operation.Add.{unsorted_add}
use fcache.Operation.Set.{set}
use fcache.Operation.Remove.{remove}
use fcache.ListHandler.Lists.{ListCreate}
use fcache.ListHandler.Adding.{add_body_type}
use fcache.ListHandler.Changing.{ListDelete, ListRemove, ListRemoveIf, ListSet, do_remove_if_equals}
use fcache.ListHandler.Reading.{ListGetRange, get_range_buffer}
use fcache.ListHandler.Intersecting.{ListIntersect, new_name, intersect_new, intersect_buffer}
use fcache.ListHandler.Frame.{is_deleted}
use fcache.ListHandler.Invariant.Filling.{empty_like}
use fcache.ListHandler.AppendGet.{with_items}
use fcache.ListHandler.SortedGet.{sorted_with}

pub record ListContents (F : Type 0) : Type 0 where
  pub values : FcVariant F
  pub is_sorted : Bool

abbrev pub ListStore : Type 0 → Type 0
ListStore F = Fcstring → Option (ListContents F)

-- The store and the response that a request leads to.
abbrev pub Specified : Type 0 → Type 0
Specified F = ListStore F × FlatBuilder F

module _ {F : Type 0} where
  abbrev pub no_lists : ListStore F
  no_lists name = none

  abbrev pub put_contents : ListStore F → Fcstring → ListContents F → ListStore F
  put_contents s name l other = if str_eq name other then some l else s other

  -- The empty list of a type.
  abbrev pub empty_of : ListType → Option (FcVariant F)
  empty_of list_int = some (ints [])
  empty_of list_uint = some (uints [])
  empty_of list_float = some (floats [])
  empty_of list_string = some (strings [])
  empty_of list_other = none

  -- ListCreate: a list that is there is left as it is.
  abbrev pub create_seen :
      ListStore F
      → FlatBuilder F
      → ListCreate
      → Option (FcVariant F)
      → Option (ListContents F)
      → Specified F
  create_seen s fbb req none l = (s, create_empty_body_response fbb status_fail body_list_create)
  create_seen s fbb req (some v) (some l) =
      (s, create_empty_body_response fbb status_duplicate body_list_create)
  create_seen s fbb req (some v) none = (
    put_contents s req.name (record { values = v; is_sorted = req.sorted }),
    create_empty_body_response fbb status_ok body_list_create,
  )

  abbrev pub spec_create : ListStore F → FlatBuilder F → ListCreate → Specified F
  spec_create s fbb req = create_seen s fbb req (empty_of req.list_type) (s req.name)

  abbrev pub spec_delete : ListStore F → FlatBuilder F → ListDelete → Specified F
  spec_delete s fbb req = (
    (λ other. if is_deleted req.name other then none else s other),
    create_empty_body_response fbb status_ok body_list_delete,
  )

  abbrev pub range_seen : FlatBuilder F → ListGetRange → Option (ListContents F) → FlatBuilder F
  range_seen fbb req none = create_empty_body_response fbb status_fail body_list_get_range
  range_seen fbb req (some l) =
      finish fbb status_ok body_list_get_range
        (buffer_body (get_range_buffer req.range req.base l.values))

  abbrev pub info_seen : FlatBuilder F → Option (ListContents F) → FlatBuilder F
  info_seen fbb none = create_empty_body_response fbb status_fail body_list_info
  info_seen fbb (some l) =
      finish fbb status_ok body_list_info
        (info_body (variant_size l.values % 2 ^ 32) (list_type_of l.values) l.is_sorted)

  -- ListRemove, where the removal is defined: a missing list is answered twice.
  abbrev pub removed_seen :
      ListStore F → FlatBuilder F → ListRemove → ListContents F → Option (FcVariant F) → Specified F
  removed_seen s fbb req l none = (s, fbb)
  removed_seen s fbb req l (some v) = (
    put_contents s req.name (record l { values = v }),
    create_empty_body_response fbb status_ok body_list_remove,
  )

  abbrev pub remove_seen :
      ListStore F → FlatBuilder F → ListRemove → Option (ListContents F) → Specified F
  remove_seen s fbb req none = (
    s,
    create_empty_body_response (create_empty_body_response fbb status_fail body_list_remove)
        status_ok body_list_remove,
  )
  remove_seen s fbb req (some l) = removed_seen s fbb req l (
      visit_defined (λ A list. remove req.range.start req.range.stop req.range.has_stop list)
        l.values)

module _ {F : Type 0} ⦃f : ListValue F⦄ where
  -- ListRemoveIf, as the scan of every node of the range does it.
  abbrev pub remove_if_seen :
      ListStore F → FlatBuilder F → ListRemoveIf F → Option (ListContents F) → Specified F
  remove_if_seen s fbb req none =
      (s, create_empty_body_response fbb status_fail body_list_remove_if)
  remove_if_seen s fbb req (some l) =
      let (v, size) = do_remove_if_equals req.range req.value l.values false in
      (
        put_contents s req.name (record l { values = v }),
        finish fbb status_ok body_list_remove_if (size_body (size % 2 ^ 32)),
      )
