-- ===== src/Tests.antt =====
-- Concrete environments and resources, and the theorems at concrete inputs.
mod Sample
mod Handlers
mod Helpers
mod Clients
mod Endpoint
mod Reconcile
mod Replies
mod Cycle
mod Storage
mod Start
