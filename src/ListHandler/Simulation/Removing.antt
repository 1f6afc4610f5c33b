-- ===== src/ListHandler/Simulation/Removing.antt =====
-- The handlers of ListRemove and ListRemoveIf against the abstract store.
use mathlib.Core.Option
use fcache.Base.{IfDefined, ◌≡◌, refl, ap, subst, Bool, true, false, Option, none, some}
use fcache.Value.{ListValue}
use fcache.FcList.{FcVariant, ints, uints, strings, floats, FcList, visit_defined}
use fcache.FcList.WellFormed.{IsWellFormed, IsVariantSorted}
use fcache.Store.Entries.{find-AllValues}
use fcache.Response.{
  FlatBuilder, status_ok, status_fail, body_list_remove, body_list_remove_if,
  create_empty_body_response,
}
use fcache.Operation.Remove.{remove}
use fcache.Operation.RemoveIf.Equal.{remove_if_equals_sorted}
use fcache.Operation.Intersect.{Range}
use fcache.Value.Order.{int_value, uint_value, string_value}
use fcache.ListHandler.Lists.{Lists, Handled, get_list, put_list, have_list}
use fcache.ListHandler.Changing.{
  ListRemove, ListRemoveIf, RequestValue, value_none, value_int, value_uint, value_string,
  value_float, remove_when_found, handle_remove, do_remove_if_equals, remove_if_when_found,
  handle_remove_if,
}
use fcache.ListHandler.Invariant.{IsValid}
use fcache.ListHandler.Contents.{ListStore, removed_seen, remove_seen, remove_if_seen}
use fcache.ListHandler.Simulation.{contents_of, seen, IsSeen, Refines, put_list-IsSeen}

module _ {F : Type 0} where
  pub handle_remove-Refines :
      (m_lists : Lists F) (s : ListStore F) (fbb : FlatBuilder F) (req : ListRemove)
      → IsSeen m_lists s
      → IfDefined
          (λ (r : Handled F). Refines r (remove_seen s fbb req (s req.name)))
          (handle_remove m_lists fbb req)
  unfolding handle_remove have_list remove_when_found
  handle_remove-Refines m_lists s fbb req q =
      subst
        (λ k.
          IfDefined (λ (r : Handled F). Refines r (remove_seen s fbb req k))
            (handle_remove m_lists fbb req))
        (q req.name) (by_found (get_list m_lists req.name) refl)
    where
      by_removed :
          (l : FcList F) (o : Option (FcVariant F))
          → get_list m_lists req.name ≡ some l
          → IfDefined
              (λ (r : Handled F). Refines r (removed_seen s fbb req (contents_of l) o))
              (Option.map
                (λ list. (
                  put_list m_lists req.name l list,
                  create_empty_body_response fbb status_ok body_list_remove,
                ))
                o)
      by_removed l none e = tt
      by_removed l (some v) e = (put_list-IsSeen m_lists s req.name l v q e, refl)

      by_found :
          (o : Option (FcList F))
          → get_list m_lists req.name ≡ o
          → IfDefined
              (λ (r : Handled F). Refines r (remove_seen s fbb req (seen o)))
              (remove_when_found m_lists req (elim o [
                | none ↦ (none, create_empty_body_response fbb status_fail body_list_remove)
                | some l ↦ (some l, fbb)
              ]))
      by_found none e = (q, refl)
      by_found (some l) e =
          by_removed l
            (visit_defined (λ A list. remove req.range.start req.range.stop req.range.has_stop list)
              l.m_list)
            e

module _ {F : Type 0} ⦃f : ListValue F⦄ where
  -- On an ascending list the search removes what the scan does.
  do_remove_if_equals_scan :
      (r : Range) (value : RequestValue F) (v : FcVariant F) (sorted : Bool)
      → (sorted ≡ true → IsVariantSorted v)
      → do_remove_if_equals r value v sorted ≡ do_remove_if_equals r value v false
  unfolding do_remove_if_equals
  do_remove_if_equals_scan r value v false h = refl
  do_remove_if_equals_scan r (value_int x) (ints l) true h =
      ap (λ p. (ints p.0, p.1))
        (remove_if_equals_sorted ⦃o = int_value⦄ r.start r.stop r.has_stop x l (h refl))
  do_remove_if_equals_scan r (value_uint x) (uints l) true h =
      ap (λ p. (uints p.0, p.1))
        (remove_if_equals_sorted ⦃o = uint_value⦄ r.start r.stop r.has_stop x l (h refl))
  do_remove_if_equals_scan r (value_string x) (strings l) true h =
      ap (λ p. (strings p.0, p.1))
        (remove_if_equals_sorted ⦃o = string_value⦄ r.start r.stop r.has_stop x l (h refl))
  do_remove_if_equals_scan r (value_float x) (floats l) true h =
      ap (λ p. (floats p.0, p.1))
        (remove_if_equals_sorted ⦃o = f⦄ r.start r.stop r.has_stop x l (h refl))
  do_remove_if_equals_scan r value_none v true h = refl
  do_remove_if_equals_scan r _ _ true h = refl

  pub handle_remove_if-Refines :
      (m_lists : Lists F) (s : ListStore F) (fbb : FlatBuilder F) (req : ListRemoveIf F)
      → IsValid m_lists
      → IsSeen m_lists s
      → Refines (handle_remove_if m_lists fbb req) (remove_if_seen s fbb req (s req.name))
  unfolding handle_remove_if have_list remove_if_when_found
  handle_remove_if-Refines m_lists s fbb req w q =
      subst (λ k. Refines (handle_remove_if m_lists fbb req) (remove_if_seen s fbb req k))
        (q req.name) (by_found (get_list m_lists req.name) refl)
    where
      by_found :
          (o : Option (FcList F))
          → get_list m_lists req.name ≡ o
          → Refines
              (remove_if_when_found m_lists req (elim o [
                | none ↦ (none, create_empty_body_response fbb status_fail body_list_remove_if)
                | some l ↦ (some l, fbb)
              ]))
              (remove_if_seen s fbb req (seen o))
      by_found none e = (q, refl)
      by_found (some l) e =
          let well = find-AllValues IsWellFormed req.name l m_lists w e in
          rw (do_remove_if_equals_scan req.range req.value l.m_list l.m_sorted well.2) (
            put_list-IsSeen m_lists s req.name l
                (do_remove_if_equals req.range req.value l.m_list false).0 q e,
            refl,
          )
