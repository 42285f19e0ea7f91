-- ===== src/Api.antt =====
-- The custom resources of the provider (apis/).
pub mod Organization
pub mod ProviderConfig
pub mod Connectivity
