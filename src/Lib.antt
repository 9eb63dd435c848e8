-- ===== src/Lib.antt =====
-- The InfluxDB operator: Kubernetes controllers and webhooks that keep organizations, buckets and
-- tokens of InfluxDB in step with custom resources.
--
-- The program's parts and their files
-- - Errors: controllers/error.go, and what the controllers ask of the errors of client libraries.
-- - Limiter, Limiter/Spacing: controllers/limiter.go. `rateLimit` is `rate_limit`, a step on the cache.
--   Limiter/Threads has its goroutines with the mutex, one step at a time, and Exclusion, Refines and
--   Progress there are about any order of their steps.
-- - Const: controllers/const.go.
-- - Api: api/v1beta1/*_types.go. The kinds with a controller are `Object Spec Data`.
-- - Webhook, Webhook/Const, Webhook/Laws: api/v1beta1/*_webhook.go and const.go. `Default`,
--   `ValidateCreate` and `ValidateUpdate` of the kind K are `default_k`, `validate_create_k` and
--   `validate_update_k`; validators that only log are `accept`.
-- - Effect: the functions of the controllers as actions, which call the world, return a value or an
--   `error`, or panic, and keep what they did beside an error.
-- - Environment: the calls that the repository does not implement, as a parameter.
-- - Lifecycle: the text that controllers/{organization,bucket,token}_controller{,_impl}.go have in
--   common. `FinalizeStatus`, `RemoveFinalizer`, `AddFinalizer` and `InitializeStatus` are
--   `finalize_status`, `remove_finalizer`, `add_finalizer` and `initialize_status` of
--   Lifecycle/Handlers; the ends of `FinalizeResources` and `ReconcileResources` are `mark_deleted` and
--   `mark_created` there, and their beginning is in Lifecycle/Connect; `Reconcile` is `reconcile` of
--   Lifecycle/Reconcile. Lifecycle/Safety, Table, Requeue, Machine, Sound, Orderly, History, Reads,
--   Permitted and Authority are about any world; Lifecycle/Server says what a healthy API server does,
--   and the other files are about such a server: Lifecycle/Rules, Progress and Configured follow the
--   calls, Sync, Convergence and Rest are about a live object, Deletion and Release about one that is
--   marked for deletion, and Keyed is about the lists that InfluxDB answers with.
-- - Organization, Bucket/Defs, Token/Data and Token/Defs: `FinalizeResources`, `ReconcileResources` and
--   `Reconcile` of the kinds, as `finalize_resources`, `reconcile_resources` and `reconcile`. The other
--   files of these three are about healthy servers: Server says what is assumed of InfluxDB, Converges
--   is about a live object and Deletes about one that is marked for deletion; the rest are steps to
--   these. Bucket/NilList, Token/Failures, Token/Descriptions, Token/Secrets and the three files
--   Authority and History need no server. Organization/Handlers and Token/Handlers are the kind's own
--   copies of the handlers of Lifecycle.
-- - Journal: any world with a journal of the writes that the program asks for; Journal/Trace says
--   in which order they come. Effect/Keeps has the rules for invariants of the world that an action
--   keeps, Effect/Returns what an action that returned a value has gone through, Lifecycle/Reads,
--   Permitted and Authority apply them to what the kinds have in common, and Authority of Bucket,
--   Organization and Token to each kind: their Writes says which writes are permitted, Found what
--   the loops over the answers find, Gone (and Lifecycle/Gone) where `FinalizeResources` returns
--   nil, and Token/Issuing where a token comes from. Bucket/Bounds and Organization/Guard join the
--   webhooks to the controllers.
-- - Lifecycle/Machine has the statuses as a state machine, whose steps are what the handlers write,
--   each with what the code has tested before; Lifecycle/Orderly says what every step keeps.
--   Lifecycle/History is the whole life of a stored object: its users and the controller change it in
--   turn, and History of Bucket, Organization and Token says that what `Reconcile` writes is a step of
--   such a life. The API server refuses a write that starts from an object that is no longer the stored
--   one, so a step starts from the stored one.
-- - Manager: main.go, with `SetupWithManager` of controllers/*_controller.go and
--   `SetupWebhookWithManager` of api/v1beta1/*_webhook.go; `init` and `main` are `run_process`.
--   Manager/Calls is about the calls that it makes.
-- - Example: a world in memory that meets the assumptions, and the theorems applied in it.
--
-- How they interact: the webhooks admit an object; the manager calls `Reconcile` with its name; the
-- call reads the object, and by its deletion mark, its finalizers and its status decides on one step,
-- which calls the API server and InfluxDB and ends by writing the object. `Reconcile` is thus a loop
-- through the server, which `repeat` of Lifecycle/Reconcile closes.
--
-- Bounds: no loop needs fuel; each is over a list. Times are natural numbers of nanoseconds. `int64`
-- fields are stored and compared only, so they are integers without a bound.
--
-- Not modelled: the deep copies, which are generated; logging and the logger's configuration, apart
-- from the rate limiter's cache; closing the InfluxDB client. The calls of Kubernetes,
-- controller-runtime and InfluxDB are parameters, which may return anything. The theorems about healthy
-- servers take the servers' documented behaviour as the hypotheses `IsServer` and `IsInflux`: InfluxDB
-- accepts a client with the Config's address and the token of its Secret, and nothing is assumed of its
-- answers to another client; it creates a bucket whose TTL is 0 or at least 3600 seconds in the
-- organization that is asked for, lists the buckets up to its page of 20, and grants permissions with a
-- known action and resource type. The hypotheses exclude other writers of the same object, bucket,
-- organization, authorization or Secret while the calls run.
pub mod Base
pub mod Errors
pub mod Limiter
pub mod Effect
pub mod Api
pub mod Environment
pub mod Const
pub mod Journal
pub mod Lifecycle
pub mod Organization
pub mod Bucket
pub mod Token
pub mod Webhook
pub mod Manager
pub mod Example
