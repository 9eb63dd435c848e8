-- ===== src/Const.antt =====
-- controllers/const.go, and the times that the controllers use, in nanoseconds.
use influxdb_operator.Base.{ℕ, ◌*◌, String}

abbrev pub finalizer : String
finalizer = "influxdb.kubetrail.io/finalizer"

abbrev pub reason_object_initialized : String
reason_object_initialized = "objectInitialized"

abbrev pub reason_object_marked_for_deletion : String
reason_object_marked_for_deletion = "objectMarkedForDeletion"

abbrev pub reason_finalizer_added : String
reason_finalizer_added = "finalizerAdded"

abbrev pub reason_created_bucket : String
reason_created_bucket = "createdBucket"

abbrev pub reason_deleted_bucket : String
reason_deleted_bucket = "deletedBucket"

abbrev pub reason_created_organization : String
reason_created_organization = "createdOrganization"

abbrev pub reason_deleted_organization : String
reason_deleted_organization = "deletedOrganization"

abbrev pub reason_created_token : String
reason_created_token = "createdToken"

abbrev pub reason_deleted_token : String
reason_deleted_token = "deletedToken"

abbrev pub phase_pending : String
phase_pending = "pending"

abbrev pub phase_ready : String
phase_ready = "ready"

abbrev pub phase_terminating : String
phase_terminating = "terminating"

abbrev pub condition_type_object : String
condition_type_object = "object"

abbrev pub condition_type_influxdb : String
condition_type_influxdb = "influxdb"

abbrev pub config_influxdb : String
config_influxdb = "default"

abbrev pub key_token : String
key_token = "token"

abbrev pub key_token_id : String
key_token_id = "tokenId"

-- `v12.ConditionTrue`
abbrev pub condition_true : String
condition_true = "True"

-- `time.Minute`, and `time.Hour*24`
abbrev pub minute : ℕ
minute = 60 * 1_000_000_000

abbrev pub day : ℕ
day = 24 * (60 * minute)
