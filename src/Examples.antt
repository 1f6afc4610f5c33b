-- ===== src/Examples.antt =====
-- Runs of the model, and the theorems at concrete inputs.
mod Inputs
mod Lists
mod Handlers
mod Maps
mod Kv
mod Server
mod Program
mod Memory
