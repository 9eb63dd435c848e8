-- ===== src/Example/WebhookTests.antt =====
-- The webhooks at concrete objects.
use influxdb_operator.Base.{ℕ, ◌≡◌, ◌≢◌, refl, ◌≤◌, ◌↔◌, ◌⊎◌, none, some, All}
use influxdb_operator.Base.Int.{pos, negsuc}
use influxdb_operator.Errors.{message}
use influxdb_operator.Api.{Bucket, Config}
use influxdb_operator.Webhook.{
  default_config, default_token, default_bucket, validate_create_bucket, bucket,
  validate_update_bucket, validate_create_token,
}
use influxdb_operator.Webhook.Laws.{
  default_config_lem, IsDefaulted, validate_update_bucket_iff, validate_create_token_iff, IsKnown,
  Admitted, created, updated, Admitted-seconds_ttl, default_token_lem,
}
use influxdb_operator.Example.Data.{config, bucket as sample, token}

negative_refused :
    validate_create_bucket
      (record sample { spec = record { seconds_ttl = negsuc 0; description = "" } })
    ≡ some (message "secondsTtl needs be either 0 or >= 3600")
unfolding validate_create_bucket
negative_refused = refl

abbrev bare_config : Config
bare_config = record config {
  spec = record { addr = ""; org_name = ""; token_secret_name = ""; token_secret_namespace = "" };
}

default_config_lem_example :
    IsDefaulted "" "http://influxdb2.influxdb2-system.svc.cluster.local"
      (default_config bare_config).spec.addr
    × IsDefaulted "" "influxdata" (default_config bare_config).spec.org_name
    × IsDefaulted "" "influxdb-token" (default_config bare_config).spec.token_secret_name
    × IsDefaulted "" config.namespace (default_config bare_config).spec.token_secret_namespace
    × ((default_config bare_config).name ≡ config.name)
    × ((default_config bare_config).namespace ≡ config.namespace)
default_config_lem_example = default_config_lem bare_config

sample-Admitted : Admitted sample
unfolding validate_create_bucket validate_update_bucket default_bucket
sample-Admitted = updated sample (created sample refl) refl

Admitted-seconds_ttl_example : (n : ℕ) × (sample.spec.seconds_ttl ≡ pos n) × ((n ≡ 0) ⊎ (3600 ≤ n))
Admitted-seconds_ttl_example = Admitted-seconds_ttl sample-Admitted

validate_update_bucket_iff_example :
    (validate_update_bucket (bucket sample) sample ≡ none)
    ↔ ((b : Bucket) × (bucket sample ≡ bucket b) × (sample.spec ≡ b.spec))
validate_update_bucket_iff_example = validate_update_bucket_iff (bucket sample) sample

validate_create_token_iff_example :
    (validate_create_token token ≡ none) ↔ All IsKnown token.spec.permissions
validate_create_token_iff_example = validate_create_token_iff token

default_token_lem_example :
    ((default_token "a1b2c" token).spec.secret_name ≢ "")
    × ((default_token "a1b2c" token).spec.config_name ≢ "")
    × (token.spec.secret_name ≢ ""
        → (default_token "a1b2c" token).spec.secret_name ≡ token.spec.secret_name)
    × (token.spec.config_name ≢ ""
        → (default_token "a1b2c" token).spec.config_name ≡ token.spec.config_name)
default_token_lem_example = default_token_lem "a1b2c" token
