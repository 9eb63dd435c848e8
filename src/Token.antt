-- ===== src/Token.antt =====
-- The Token controller: controllers/token_controller_impl.go and token_controller.go.
pub mod Data
pub mod Defs
pub mod Handlers
pub mod Server
pub mod Steps
pub mod Obtain
pub mod Descriptions
pub mod Failures
pub mod Cleanup
pub mod Deletes
pub mod Writes
pub mod Secrets
pub mod Found
pub mod Issuing
pub mod Gone
pub mod Authority
pub mod History
pub mod Present
pub mod Sync
pub mod Converges
