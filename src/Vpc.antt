-- ===== src/Vpc.antt =====
-- VPC endpoints: internal/clients/connectivity/connectivity.go and
-- internal/controller/vpcendpoint/vpcendpoint.go.
pub mod Platform
pub mod Client
pub mod Endpoint
pub mod Connect
