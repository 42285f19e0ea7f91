-- ===== src/Go.antt =====
-- What the provider takes from Go: error values, fallible computations on a state, JSON and URLs.
pub mod Fault
pub mod Exec
pub mod Keeps
pub mod Runs
pub mod Panics
pub mod Json
pub mod Url
pub mod Struct
