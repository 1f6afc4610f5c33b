-- ===== src/Response.antt =====
-- The responses (fbs/response.fbs) and the builders that hold them (FlatBuffers.hpp).
--
-- A `FlatBufferBuilder` is the list of the responses that were finished in it, the last one first:
-- each `Finish` writes a new root in front of what is there.
use fcache.Base.{ℕ, ◌≡◌, ◌≢◌, List, [], ◌∷◌, Bool}
use fcache.Value.{Fcint, Fcuint, Fcstring}
use fcache.FcList.{ListType, FcVariant}

-- `fc::response::Status`
pub data Status : Type 0 where
  status_fail : Status
  status_ok : Status
  status_command_unknown : Status
  status_parse_error : Status
  status_duplicate : Status
  status_not_permitted : Status
  status_not_exist : Status

-- `fc::response::ResponseBody`, the types of the union.
pub data ResponseBody : Type 0 where
  body_none : ResponseBody
  body_kv_set : ResponseBody
  body_kv_get : ResponseBody
  body_kv_rmv : ResponseBody
  body_kv_add : ResponseBody
  body_kv_count : ResponseBody
  body_kv_contains : ResponseBody
  body_kv_clear : ResponseBody
  body_kv_clear_set : ResponseBody
  body_list_create : ResponseBody
  body_list_add : ResponseBody
  body_list_delete : ResponseBody
  body_list_get_range : ResponseBody
  body_list_remove : ResponseBody
  body_list_remove_if : ResponseBody
  body_list_intersect : ResponseBody
  body_list_set : ResponseBody
  body_list_append : ResponseBody
  body_list_info : ResponseBody

-- A value of a key in the flexbuffers map of a request or a response, by its type.
pub data FlexValue (F : Type 0) : Type 0 where
  fbt_int : Fcint → FlexValue F
  fbt_uint : Fcuint → FlexValue F
  fbt_bool : Bool → FlexValue F
  fbt_float : F → FlexValue F
  fbt_string : Fcstring → FlexValue F
  fbt_blob : List ℕ → FlexValue F
  vector_int : List Fcint → FlexValue F
  vector_uint : List Fcuint → FlexValue F
  vector_float : List F → FlexValue F
  vector_bool : List Bool → FlexValue F
  vector_key : List Fcstring → FlexValue F
  -- any type that the server does not store
  unsupported : FlexValue F

-- What a `flexbuffers::Builder` holds when its buffer is fetched.
pub data FlexBuffer (F : Type 0) : Type 0 where
  unfinished : FlexBuffer F
  empty_vector : FlexBuffer F
  vector : FcVariant F → FlexBuffer F
  key_vector : List Fcstring → FlexBuffer F
  key_map : List (Fcstring × FlexValue F) → FlexBuffer F

-- The table of a body.
pub data Body (F : Type 0) : Type 0 where
  empty_body : Body F
  size_body : ℕ → Body F
  buffer_body : FlexBuffer F → Body F
  info_body : ℕ → ListType → Bool → Body F

pub record Response (F : Type 0) : Type 0 where
  pub status : Status
  pub body_type : ResponseBody
  pub body : Body F

abbrev pub FlatBuilder : Type 0 → Type 0
FlatBuilder F = List (Response F)

module _ {F : Type 0} where
  -- CreateResponse and Finish.
  abbrev pub finish : FlatBuilder F → Status → ResponseBody → Body F → FlatBuilder F
  finish fbb status body_type body =
      record { status = status; body_type = body_type; body = body } ∷ fbb

  -- The response that was finished last is one to a request of this type.
  abbrev pub Answers : ResponseBody → FlatBuilder F → Type 0
  Answers body_type [] = ⊥
  Answers body_type (r ∷ fbb) = r.body_type ≡ body_type

  -- The response that was finished last has a status other than Ok.
  abbrev pub IsFailure : FlatBuilder F → Type 0
  IsFailure [] = ⊥
  IsFailure (r ∷ fbb) = r.status ≢ status_ok

  abbrev pub create_empty_body_response : FlatBuilder F → Status → ResponseBody → FlatBuilder F
  create_empty_body_response fbb status body_type = finish fbb status body_type empty_body
