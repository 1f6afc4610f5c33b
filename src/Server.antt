-- ===== src/Server.antt =====
-- Server.hpp and Server.cpp: the requests, their dispatch to the handlers, and the clients.
pub mod Requests
pub mod Dispatch
pub mod Replies
pub mod Events
pub mod Runs
pub mod Traces
pub mod Stopping
pub mod Failures
pub mod Refusals
pub mod Preserved
pub mod Isolation
pub mod Kinds
pub mod Refines
pub mod Defined
pub mod Contents
pub mod ListContents
