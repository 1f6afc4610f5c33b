-- ===== src/ListHandler.antt =====
-- ListHandler.hpp and ListHandler.cpp: the lists of the server and the handlers of the requests on
-- them. A handler takes the lists and the builder of the response, and returns both.
--
-- The `catch` branches answer a failure to allocate memory, which is not modelled. The fields of a
-- request that a handler reads without a check (a name, the items, a range) are present.
pub mod Lists
pub mod Found
pub mod Adding
pub mod Changing
pub mod Reading
pub mod Intersecting
pub mod Invariant
pub mod Failures
pub mod Answers
pub mod Runs
pub mod Frame
pub mod WholeRange
pub mod AppendGet
pub mod SortedGet
pub mod Contents
pub mod Simulation
pub mod NewList
pub mod Kinds
