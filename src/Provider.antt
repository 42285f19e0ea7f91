-- ===== src/Provider.antt =====
-- The start of the provider: cmd/provider/main.go, apis/mongodb.go, internal/controller/mongodb.go and
-- the Setup functions that it calls.
pub mod Kinds
pub mod Platform
pub mod Setup
pub mod Main
