-- ===== src/Server/Requests.antt =====
-- `fc::request::Request` (fbs/request.fbs, fbs/common.fbs): what a message holds.
use fcache.Base.{Option}
use fcache.Value.{Fcstring, ListValue}
use fcache.FcList.{FlexItems}
use fcache.ListHandler.Lists.{ListCreate}
use fcache.ListHandler.Adding.{ListAdd, ListAppend}
use fcache.ListHandler.Changing.{ListDelete, ListRemove, ListRemoveIf, ListSet}
use fcache.ListHandler.Reading.{ListGetRange, ListInfo}
use fcache.ListHandler.Intersecting.{ListIntersect}
use fcache.Kv.Requests.{KvSet, KvKeys, KvClear}

-- A byte: `ident_other` is any value without a name.
pub data Ident : Type 0 where
  ident_kv : Ident
  ident_list : Ident
  ident_other : Ident

module _ {F : Type 0} ⦃f : ListValue F⦄ (c : FlexItems F) where
  -- The union, with the table that it holds. `body_other` is no table, or one of a newer schema.
  pub data RequestBody : Type 0 where
    kv_set : KvSet F → RequestBody
    kv_get : KvKeys → RequestBody
    kv_rmv : KvKeys → RequestBody
    kv_add : KvSet F → RequestBody
    kv_count : Option Fcstring → RequestBody
    kv_contains : KvKeys → RequestBody
    kv_clear : KvClear → RequestBody
    kv_clear_set : KvSet F → RequestBody
    list_create : ListCreate → RequestBody
    list_add : ListAdd c → RequestBody
    list_delete : ListDelete → RequestBody
    list_get_range : ListGetRange → RequestBody
    list_remove : ListRemove → RequestBody
    list_remove_if : ListRemoveIf F → RequestBody
    list_intersect : ListIntersect → RequestBody
    list_set : ListSet c → RequestBody
    list_append : ListAppend c → RequestBody
    list_info : ListInfo → RequestBody
    body_other : RequestBody

  pub record Request : Type 0 where
    pub ident : Ident
    pub body : RequestBody
