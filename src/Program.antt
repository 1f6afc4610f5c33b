-- ===== src/Program.antt =====
-- fcache.cpp: the command line of the server, and `main`.
pub mod Numbers
pub mod Arguments
pub mod Main
