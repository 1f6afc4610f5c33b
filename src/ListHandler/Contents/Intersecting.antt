-- ===== src/ListHandler/Contents/Intersecting.antt =====
-- What ListIntersect does to the abstract store, and what it is answered with.
use fcache.Base.{Bool, true, Option, none, some, ◌&&◌, if◌then◌else◌}
use fcache.Value.{Fcstring, ListValue}
use fcache.FcList.{flex_type_of, flex_type_eq}
use fcache.Response.{
  status_fail, status_ok, body_list_intersect, FlatBuilder, FlexBuffer, empty_vector, finish,
  buffer_body, create_empty_body_response,
}
use fcache.ListHandler.Intersecting.{ListIntersect, new_name, intersect_new, intersect_buffer}
use fcache.ListHandler.Invariant.Filling.{empty_like}
use fcache.ListHandler.Contents.{ListContents, ListStore, Specified, put_contents}

module _ {F : Type 0} ⦃f : ListValue F⦄ where
  -- ListIntersect: only sorted lists of one type are intersected.
  abbrev pub can_intersect : ListContents F → ListContents F → Bool
  can_intersect l1 l2 =
      l1.is_sorted && l2.is_sorted && flex_type_eq (flex_type_of l1.values) (flex_type_of l2.values)

  abbrev pub intersection_seen :
      ListStore F
      → ListIntersect
      → ListContents F
      → ListContents F
      → Option Fcstring
      → ListStore F × FlexBuffer F
  intersection_seen s req l1 l2 none =
      (s, intersect_buffer l1.values l2.values req.list1_range req.list2_range)
  intersection_seen s req l1 l2 (some name) = (
    (elim (s name) [
      | none ↦ put_contents s name (record {
        values =
            intersect_new l1.values l2.values req.list1_range req.list2_range
              (empty_like l1.values);
        is_sorted = true;
      })
      | some l ↦ s
    ]),
    empty_vector,
  )

  abbrev pub intersect_seen :
      ListStore F
      → FlatBuilder F
      → ListIntersect
      → Option (ListContents F)
      → Option (ListContents F)
      → Specified F
  intersect_seen s fbb req none none = (
    s,
    create_empty_body_response (create_empty_body_response fbb status_fail body_list_intersect)
        status_fail body_list_intersect,
  )
  intersect_seen s fbb req none (some l2) =
      (s, create_empty_body_response fbb status_fail body_list_intersect)
  intersect_seen s fbb req (some l1) none =
      (s, create_empty_body_response fbb status_fail body_list_intersect)
  intersect_seen s fbb req (some l1) (some l2) =
      if can_intersect l1 l2
      then (
        (intersection_seen s req l1 l2 (new_name req.new_list_name)).0,
        finish fbb status_ok body_list_intersect
            (buffer_body (intersection_seen s req l1 l2 (new_name req.new_list_name)).1),
      )
      else (s, create_empty_body_response fbb status_fail body_list_intersect)
