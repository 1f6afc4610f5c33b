-- ===== src/ListHandler/Found.antt =====
-- `haveList` on a list that exists and on one that does not (ListHandler.hpp).
use fcache.Base.{◌≡◌, refl, none, some, Option-cases, inl, inr}
use fcache.Value.{Fcstring}
use fcache.FcList.{FcList}
use fcache.Response.{status_fail, ResponseBody, FlatBuilder, create_empty_body_response}
use fcache.ListHandler.Lists.{Lists, get_list, have_list}

module _ {F : Type 0} (m_lists : Lists F) (fbb : FlatBuilder F) (name : Fcstring)
    (body_type : ResponseBody) where
  pub have_list_missing :
      get_list m_lists name ≡ none
      → have_list m_lists fbb name body_type
        ≡ (none, create_empty_body_response fbb status_fail body_type)
  unfolding have_list
  have_list_missing e = rw (e, have_list) refl

  pub have_list_found :
      {l : FcList F}
      → get_list m_lists name ≡ some l
      → have_list m_lists fbb name body_type ≡ (some l, fbb)
  unfolding have_list
  have_list_found e = rw (e, have_list) refl

  pub have_list-get_list : get_list m_lists name ≡ (have_list m_lists fbb name body_type).0
  unfolding have_list
  have_list-get_list = elim (Option-cases (get_list m_lists name)) [
    | inl e ↦ rw (e, have_list) refl
    | inr (l, e) ↦ rw (e, have_list) refl
  ]
