-- ===== src/Kv.antt =====
-- Map.hpp, Map.cpp, KvCommon.hpp, KvHandler.hpp and KvHandler.cpp: the keys with their values, in
-- groups and outside of them, and the handlers of the requests on them.
pub mod Requests
pub mod Bytes
pub mod CachedValue
pub mod Contents
pub mod DenseMap
pub mod CacheMap
pub mod Handler
