-- ===== src/Lifecycle.antt =====
-- The part that the three controllers have in common: the loops over conditions, the handlers of the
-- finalizer and of the status, and `Reconcile`.
pub mod Conditions
pub mod Handlers
pub mod Connect
pub mod Reconcile
pub mod Server
pub mod Progress
pub mod Configured
pub mod Sync
pub mod Convergence
pub mod Cleanup
pub mod Deletion
pub mod Release
pub mod Rules
pub mod Keyed
pub mod Rest
pub mod Sound
pub mod Machine
pub mod Orderly
pub mod History
pub mod Permitted
pub mod Authority
pub mod Gone
pub mod Reads
pub mod Safety
pub mod Table
pub mod Requeue
