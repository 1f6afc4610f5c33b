-- ===== src/ListHandler/Simulation/Reading.antt =====
-- The handlers of ListCreate, ListDelete, ListGetRange and ListInfo against the abstract store.
use mathlib.Core.Path.{ap₂}
use fcache.Base.{
  ◌%◌, ◌^◌, ◌≡◌, refl, ap, ◌∙◌, subst, [], Bool, true, false, Option, none, some, if◌then◌else◌,
  Option-cases, inl, inr,
}
use fcache.Value.{str_eq}
use fcache.Store
use fcache.FcList.{
  list_int, list_uint, list_float, list_string, list_other, FcVariant, ints, uints, strings, floats,
  FcList, make_fc_list, visit_read, variant_size, list_type_of,
}
use fcache.Response.{
  FlatBuilder, finish, status_ok, status_fail, body_list_create, body_list_get_range,
  body_list_info, info_body, create_empty_body_response,
}
use fcache.Operation.Intersect.{info}
use fcache.Value.Order.{int_value, uint_value, string_value}
use fcache.ListHandler.Lists.{
  Lists, ListCreate, get_list, have_list, create, create_list, handle_create,
}
use fcache.ListHandler.Changing.{ListDelete, handle_delete}
use fcache.ListHandler.Reading.{
  ListGetRange, ListInfo, get_range_when_found, handle_get_range, handle_info,
}
use fcache.ListHandler.Frame.{is_deleted, delete_lists_lem}
use fcache.ListHandler.Contents.{
  ListContents, ListStore, spec_create, create_seen, spec_delete, range_seen, info_seen,
}
use fcache.ListHandler.Simulation.{seen, IsSeen, Refines, seen_if}

module _ {F : Type 0} where
  create-Refines :
      (m_lists : Lists F) (s : ListStore F) (fbb : FlatBuilder F) (req : ListCreate)
      (v : FcVariant F)
      → IsSeen m_lists s
      → Refines
          (
            (create m_lists req.name v req.sorted).0,
            create_empty_body_response fbb
                (create m_lists req.name v req.sorted).1
                body_list_create,
          )
          (create_seen s fbb req (some v) (s req.name))
  unfolding create Store.find make_fc_list Store.try_emplace
  create-Refines m_lists s fbb req v q =
      subst
        (λ k.
          Refines
            (
              (create m_lists req.name v req.sorted).0,
              create_empty_body_response fbb (create m_lists req.name v req.sorted).1
                  body_list_create,
            )
            (create_seen s fbb req (some v) k))
        (q req.name)
        (elim (Option-cases (get_list m_lists req.name)) [
          | inl e ↦
              rw (e, create, Store.try_emplace)
                (
                  (λ other.
                      seen_if (str_eq req.name other) (make_fc_list v req.sorted)
                        (get_list m_lists other) (s other) (q other)),
                  refl,
                )
          | inr (l, e) ↦ rw (e, create, Store.try_emplace) (q, refl)
        ])

  pub handle_create-Refines :
      (m_lists : Lists F) (s : ListStore F) (fbb : FlatBuilder F) (req : ListCreate)
      → IsSeen m_lists s
      → Refines (handle_create m_lists fbb req) (spec_create s fbb req)
  unfolding handle_create create_list
  handle_create-Refines m_lists s fbb req q =
      elim req.list_type
        as (λ t.
          Refines (handle_create m_lists fbb (record req { list_type = t }))
            (spec_create s fbb (record req { list_type = t }))) [
              | list_int ↦ create-Refines m_lists s fbb req (ints []) q
              | list_uint ↦ create-Refines m_lists s fbb req (uints []) q
              | list_float ↦ create-Refines m_lists s fbb req (floats []) q
              | list_string ↦ create-Refines m_lists s fbb req (strings []) q
              | list_other ↦ (q, refl)
            ]

  pub handle_delete-Refines :
      (m_lists : Lists F) (s : ListStore F) (fbb : FlatBuilder F) (req : ListDelete)
      → IsSeen m_lists s
      → Refines (handle_delete m_lists fbb req) (spec_delete s fbb req)
  unfolding handle_delete
  handle_delete-Refines m_lists s fbb req q = (
    (λ other.
        ap seen (delete_lists_lem req.name m_lists other)
        ∙ either (is_deleted req.name other) (get_list m_lists other) (s other) (q other)),
    refl,
  )
    where
      either :
          (gone : Bool) (o : Option (FcList F)) (k : Option (ListContents F))
          → seen o ≡ k
          → seen (if gone then none else o) ≡ (if gone then none else k)
      either true o k e = refl
      either false o k e = e

  pub handle_get_range-range_seen :
      (m_lists : Lists F) (s : ListStore F) (fbb : FlatBuilder F) (req : ListGetRange)
      → IsSeen m_lists s
      → handle_get_range m_lists fbb req ≡ range_seen fbb req (s req.name)
  unfolding handle_get_range have_list get_range_when_found
  handle_get_range-range_seen m_lists s fbb req q =
      by_found (get_list m_lists req.name) ∙ ap (range_seen fbb req) (q req.name)
    where
      by_found :
          (o : Option (FcList F))
          → get_range_when_found req (elim o [
            | none ↦ (none, create_empty_body_response fbb status_fail body_list_get_range)
            | some l ↦ (some l, fbb)
          ])
            ≡ range_seen fbb req (seen o)
      by_found none = refl
      by_found (some l) = refl

  -- The types in the record are those of its list, which is all that a response has of them.
  pub handle_info-info_seen :
      (m_lists : Lists F) (s : ListStore F) (fbb : FlatBuilder F) (req : ListInfo)
      → ((l : FcList F)
          → get_list m_lists req.name ≡ some l
          → l.m_list_type ≡ list_type_of l.m_list)
      → IsSeen m_lists s
      → handle_info m_lists fbb req ≡ info_seen fbb (s req.name)
  unfolding handle_info info
  handle_info-info_seen m_lists s fbb req typed q =
      by_found (get_list m_lists req.name) (λ l e. typed l e) ∙ ap (info_seen fbb) (q req.name)
    where
      sized : (v : FcVariant F) → visit_read (λ A list. info list) v ≡ variant_size v % 2 ^ 32
      sized (ints l) = refl
      sized (uints l) = refl
      sized (strings l) = refl
      sized (floats l) = refl

      by_found :
          (o : Option (FcList F))
          → ((l : FcList F) → o ≡ some l → l.m_list_type ≡ list_type_of l.m_list)
          → (elim o [
            | none ↦ create_empty_body_response fbb status_fail body_list_info
            | some l ↦
                finish fbb status_ok body_list_info
                  (info_body (visit_read (λ A list. info list) l.m_list) l.m_list_type l.m_sorted)
          ])
            ≡ info_seen fbb (seen o)
      by_found none h = refl
      by_found (some l) h =
          ap₂ (λ n t. finish fbb status_ok body_list_info (info_body n t l.m_sorted))
            (sized l.m_list) (h l refl)
