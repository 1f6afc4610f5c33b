-- ===== src/Operation.antt =====
-- The operations on one list: the functors of server/include/fc/ListOperations.hpp, each a
-- function of the list. `items` are the elements of the request's `flexbuffers::TypedVector`,
-- converted to the list's value type by `As<value_type>`.
pub mod Add
pub mod Set
pub mod GetByRange
pub mod Remove
pub mod RemoveIf
pub mod Intersect
