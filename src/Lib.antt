-- ===== src/Lib.antt =====
-- fcache, an in-memory cache server: its start, its event loop, the handlers of its requests and the
-- containers they work on.
--
-- A client sends FlatBuffers requests over a web socket. The server (`server/src/Server.cpp`) runs
-- one event loop: for each message it reads the request and calls one handler, which reads and
-- changes the containers and finishes a response in a builder, and then it sends the builder. So each
-- handler here is a function from the containers, the builder and the request to the new containers
-- and the builder, and a run of the server is a function from the list of its events to the server
-- and what it sent.
--
-- The parts and their files:
-- - Base: numbers, lists, Boolean tests and signed integers that all parts share.
-- - Value: the types of the nodes of a list (`fcint`, `fcuint`, `fcstring`, `fcfloat` of
--   `server/include/fc/Common.hpp`) and the order that `operator<` and `operator==` give them.
-- - Algorithm: the standard algorithms on ranges that the lists call (`std::upper_bound`,
--   `std::lower_bound`, `std::remove_if`, `std::set_intersection` and others), on lists and indices.
-- - Sorted: ascending lists. An ascending rearrangement of a list is unique; Sorted.Reference makes
--   it by insertion.
-- - Range: the positions of a request as indices and as iterators (`ListOperations.hpp`).
-- - Operation: the functors of `server/include/fc/ListOperations.hpp`, a module each.
-- - FcList: the variant of lists and the record FcList of `server/include/fc/List.hpp`.
-- - Store: a `std::map` or a hash map whose keys are text, as an association list.
-- - Response: the tables of `fbs/response.fbs` and `server/include/fc/FlatBuffers.hpp`.
-- - ListHandler: the handlers of `server/src/ListHandler.cpp` and `server/include/fc/ListHandler.hpp`.
--   Its Invariant is what every handler preserves, Failures what a failure leaves as it was, Answers the types of
--   the answers, Runs the lists that sequences of requests lead to, Frame and Kinds what a handler
--   leaves alone, and AppendGet, SortedGet and NewList two requests from end to end. Contents is an
--   abstract store of lists, and Simulation relates each handler to it.
-- - Kv: the key-value cache. Kv.Bytes and Kv.CachedValue are the values that are stored and how they
--   are put into bytes (`server/include/fc/KvCommon.hpp`, `server/include/fc/Map.hpp`,
--   `server/src/Map.cpp`), Kv.CacheMap is `CacheMap` of `Map.hpp`, and Kv.Handler is
--   `server/include/fc/KvHandler.hpp` and `server/src/KvHandler.cpp`, with what a client sees of it
--   (Refinement, Groups, Removal, Clearing, Keys, Whole, Failures) and the states that it reaches
--   (Steps, SetGet). Kv.Requests is what its requests hold, Kv.Contents an abstract store of keys, and
--   Kv.Handler.Simulation relates each handler to it.
-- - Server: `server/include/fc/Server.hpp` and `server/src/Server.cpp`. Server.Requests is what a
--   message holds (`fbs/request.fbs`), Dispatch the way from a message to its handler and back,
--   Replies and Refusals what is answered, Failures what a failure leaves as it was, Events the callbacks of the web socket, `start`, `stop` and
--   the event loop, Runs and Traces what holds after every sequence of events, Stopping the end of the server, and Isolation and Kinds
--   what a sequence of events leaves alone, both by Preserved. Contents and ListContents relate
--   every run of the server to the two abstract stores, both by Refines, and Defined says which runs
--   have a result.
-- - Program: `server/fcache.cpp`. Program.Numbers is `std::stoi` and `std::stoul`, Arguments is
--   `getCmdArgs`, and Main is `main`.
-- - Memory: `server/include/fc/Memory.hpp`: how a debug build prints the bytes of a block that is given
--   back, and in Memory.Resource the chains of memory resources, in a debug build and in a release.
-- - Examples: concrete inputs for the theorems.
--
-- How the model corresponds to the code:
-- - A list is the `List` of its nodes, an iterator is an index in it, and a range is two indices.
--   What a function of the code does by reference, the model returns.
-- - The native numbers are unbounded: an index is at most the size of a list in memory, and the
--   positions of a request are 32 bits wide, so no sum of these wraps. `fcint` and `fcuint` are only
--   compared and copied by the lists; the bytes of a stored value are written out, little endian, and
--   the round trip is stated for integers of 64 bits.
-- - Undefined behaviour of the code is `none` in the result, and no theorem says more of it, with two
--   exceptions. The searches of the standard library (`lower_bound`, `upper_bound`, `equal_range`)
--   are the first hit of a scan, which is what they return on an ascending range; on any other what
--   they return is not specified, and the model does not say so. `std::isprint` of a negative byte
--   is false, as in the C locale.
-- - A builder is the list of the responses that were finished in it, the last one in front. A builder
--   in which a handler finishes nothing is one the code sends unfinished.
-- - All functions are structurally recursive. The only fuel is the number of rounds in which a vector
--   is read from its bytes, as many as there are bytes: each round reads one byte at least.
--
-- Parameters: the type `F` of floating-point numbers, whose order is total (the lists hold no NaN),
-- `FlexItems`, the conversions of FlexBuffers from a reference to a value, `FloatBytes`, the four bytes
-- of a float in memory, `DenseMap`, the hash map of the library `ankerl::unordered_dense`, by what
-- its operations do to a lookup and by its entries, in which no key occurs twice, `get_request`, the
-- generated accessor that finds the request in the bytes of a message, the list of what `getopt_long`
-- returns, `Machine`, what the thread, `listen` and the affinity come to, and `PmrResources`, the memory
-- resources of the standard library, whose pools hand out the same blocks on upstreams that do.
--
-- Not modelled: failures to allocate memory and the `catch` branches that only they reach, requests
-- in which a required field is absent, the web socket library and its thread (its callbacks are the
-- events, one after the other, as on its one thread), the signals and logging, which allocator a
-- container has (it has no effect on what the container holds), the benchmark of allocators
-- (`memtest/mem.cpp`), which is not part of the server, and the Python client.

pub mod Algorithm
pub mod Base
mod Examples
pub mod FcList
pub mod Kv
pub mod ListHandler
pub mod Memory
pub mod Operation
pub mod Program
pub mod Range
pub mod Response
pub mod Server
pub mod Sorted
pub mod Store
pub mod Value
