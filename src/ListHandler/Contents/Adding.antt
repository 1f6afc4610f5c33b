-- ===== src/ListHandler/Contents/Adding.antt =====
-- What ListAdd, ListAppend and ListSet do to the abstract store, and what they are answered with.
use fcache.Base.{◌%◌, ◌^◌, List, map, Bool, Option, none, some, length, ◌==◌, if◌then◌else◌}
use fcache.Base.Int.{ℤ}
use fcache.Value.{Fcstring, ListValue}
use fcache.FcList.{FlexItems, FcVariant, ints, uints, strings, floats, variant_size}
use fcache.Response.{
  status_fail, status_ok, status_not_permitted, body_list_set, FlatBuilder, finish, size_body,
  create_empty_body_response,
}
use fcache.Operation.Add.{unsorted_add}
use fcache.Operation.Set.{set}
use fcache.ListHandler.Adding.{add_body_type}
use fcache.ListHandler.Changing.{ListSet}
use fcache.ListHandler.AppendGet.{with_items}
use fcache.ListHandler.SortedGet.{sorted_with}
use fcache.ListHandler.Contents.{ListContents, ListStore, Specified, put_contents}

module _ {F : Type 0} ⦃f : ListValue F⦄ (c : FlexItems F) where
  -- The items in front of the node at a position.
  abbrev pub inserted_with : List c.Ref → ℤ → FcVariant F → FcVariant F
  inserted_with items position (ints l) = ints (unsorted_add (map c.as_int items) position l).0
  inserted_with items position (uints l) = uints (unsorted_add (map c.as_uint items) position l).0
  inserted_with items position (strings l) =
      strings (unsorted_add (map c.as_string items) position l).0
  inserted_with items position (floats l) =
      floats (unsorted_add (map c.as_float items) position l).0

  -- ListAdd and ListAppend: a sorted list is sorted again, whatever the request says.
  abbrev pub added_values : ListContents F → List c.Ref → Bool → ℤ → FcVariant F
  added_values l items is_append position =
      if l.is_sorted
      then sorted_with c items l.values
      else (if is_append
          then with_items c items l.values
          else inserted_with items position l.values)

  -- Without items nothing is answered.
  abbrev pub add_seen :
      ListStore F
      → FlatBuilder F
      → Fcstring
      → List c.Ref
      → Bool
      → ℤ
      → Option (ListContents F)
      → Specified F
  add_seen s fbb name items is_append position none =
      (s, create_empty_body_response fbb status_fail (add_body_type c is_append))
  add_seen s fbb name items is_append position (some l) = if length items == 0 then (s, fbb) else (
    put_contents s name (record l { values = added_values l items is_append position }),
    finish fbb status_ok (add_body_type c is_append)
        (size_body (variant_size (added_values l items is_append position) % 2 ^ 32)),
  )

  abbrev pub set_with : List c.Ref → ℤ → FcVariant F → FcVariant F
  set_with items position (ints l) = ints (set (map c.as_int items) position l)
  set_with items position (uints l) = uints (set (map c.as_uint items) position l)
  set_with items position (strings l) = strings (set (map c.as_string items) position l)
  set_with items position (floats l) = floats (set (map c.as_float items) position l)

  -- ListSet: a missing list is answered twice.
  abbrev pub set_seen :
      ListStore F → FlatBuilder F → ListSet c → Option (ListContents F) → Specified F
  set_seen s fbb req none = (
    s,
    create_empty_body_response (create_empty_body_response fbb status_fail body_list_set) status_ok
        body_list_set,
  )
  set_seen s fbb req (some l) =
      if length req.items == 0
      then (s, create_empty_body_response fbb status_ok body_list_set)
      else (if l.is_sorted
          then (s, create_empty_body_response fbb status_not_permitted body_list_set)
          else (
            put_contents s req.name
                (record l { values = set_with req.items req.position l.values }),
            create_empty_body_response fbb status_ok body_list_set,
          ))
