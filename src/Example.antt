-- ===== src/Example.antt =====
-- A world in memory, in which the theorems are applied: an API server with one object of each kind, a
-- Config and a Secret, and an InfluxDB. It meets what Lifecycle/Server, Bucket/Server,
-- Organization/Server and Token/Server assume.
pub mod Finalizers
pub mod Memory
pub mod Laws
pub mod OrganizationLaws
pub mod TokenLaws
pub mod Data
mod LimiterTests
mod LimiterThreads
mod WebhookTests
mod LifecycleTests
mod BucketTests
mod OrganizationTests
mod TokenTests
mod RestTests
mod JournalTests
mod ManagerTests
mod SecretTests
mod HistoryTests
mod NilListTests
