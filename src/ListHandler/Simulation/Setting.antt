-- ===== src/ListHandler/Simulation/Setting.antt =====
-- The handler of ListSet against the abstract store.
use fcache.Base.{◌≡◌, refl, subst, List, Option, none, some, length, ◌==◌, Bool-cases, inl, inr}
use fcache.Base.Int.{ℤ}
use fcache.Value.{ListValue}
use fcache.Store.Entries.{find-AllValues}
use fcache.FcList.{FlexItems, FcVariant, ints, uints, strings, floats, FcList, visit_items}
use fcache.FcList.WellFormed.{IsWellFormed}
use fcache.Response.{FlatBuilder, status_fail, body_list_set, create_empty_body_response}
use fcache.Operation.Set.{set}
use fcache.Value.Order.{int_value, uint_value, string_value}
use fcache.ListHandler.Lists.{Lists, get_list, have_list}
use fcache.ListHandler.Changing.{ListSet, set_in_list, set_when_found, handle_set}
use fcache.ListHandler.Invariant.{IsValid}
use fcache.ListHandler.Contents.{ListStore}
use fcache.ListHandler.Contents.Adding.{set_with, set_seen}
use fcache.ListHandler.Simulation.{seen, IsSeen, Refines, put_list-IsSeen}
use fcache.ListHandler.Simulation.Adding.{is_list_flex_type_well}

module _ {F : Type 0} ⦃f : ListValue F⦄ (c : FlexItems F) where
  set_visited :
      (items : List c.Ref) (position : ℤ) (v : FcVariant F)
      → (visit_items c items (λ A o xs list. (set xs position list, tt {0})) v).0
        ≡ set_with c items position v
  set_visited items position (ints l) = refl
  set_visited items position (uints l) = refl
  set_visited items position (strings l) = refl
  set_visited items position (floats l) = refl

  pub handle_set-Refines :
      (m_lists : Lists F) (s : ListStore F) (fbb : FlatBuilder F) (req : ListSet c)
      → IsValid m_lists
      → IsSeen m_lists s
      → Refines (handle_set c m_lists fbb req) (set_seen c s fbb req (s req.name))
  unfolding handle_set have_list set_when_found set_in_list
  handle_set-Refines m_lists s fbb req w q =
      subst (λ k. Refines (handle_set c m_lists fbb req) (set_seen c s fbb req k)) (q req.name)
        (by_found (get_list m_lists req.name) refl)
    where
      by_found :
          (o : Option (FcList F))
          → get_list m_lists req.name ≡ o
          → Refines
              (set_when_found c m_lists req (elim o [
                | none ↦ (none, create_empty_body_response fbb status_fail body_list_set)
                | some l ↦ (some l, fbb)
              ]))
              (set_seen c s fbb req (seen o))
      by_found none e = (q, refl)
      by_found (some l) e =
          let typed =
            is_list_flex_type_well c l (find-AllValues IsWellFormed req.name l m_lists w e) in
          elim (Bool-cases (length req.items == 0)) [
            | inl z ↦ rw z (q, refl)
            | inr z ↦ elim (Bool-cases l.m_sorted) [
              | inl sorted ↦ rw (z, sorted) (q, refl)
              | inr unsorted ↦
                  rw (z, unsorted, typed, set_visited req.items req.position l.m_list)
                    (
                      rw unsorted at (
                          put_list-IsSeen m_lists s req.name l
                            (set_with c req.items req.position l.m_list) q e),
                      refl,
                    )
            ]
          ]
