-- ===== src/Mongo.antt =====
-- internal/clients/mongodb/client.go: the Atlas client.
pub mod Service
pub mod Http
pub mod Payload
pub mod Client
