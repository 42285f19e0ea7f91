-- ===== src/Organization.antt =====
-- internal/controller/organization/organization.go: the controller of Organization resources.
pub mod Platform
pub mod Trace
pub mod Names
pub mod Errors
pub mod Secrets
pub mod Status
pub mod Shows
pub mod Answers
pub mod Connect
pub mod Observe
pub mod Network
pub mod Create
pub mod Update
pub mod Delete
pub mod Reconcile
pub mod Panics
