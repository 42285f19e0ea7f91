-- ===== src/Aws.antt =====
-- internal/clients/aws/client.go: the AWS Secrets Manager client.
pub mod Secrets
pub mod Client
