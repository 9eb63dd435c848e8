-- ===== src/Manager.antt =====
-- main.go, and the functions `SetupWithManager` of controllers/*_controller.go and
-- `SetupWebhookWithManager` of api/v1beta1/*_webhook.go that it calls. What they call of
-- controller-runtime is a parameter. Logging is left out.
pub mod Calls
use influxdb_operator.Base.{ℕ, String, Bool, false}
use influxdb_operator.Effect.{M, Reply, reply, refuse}
use influxdb_operator.Api.{NamespacedName}
use influxdb_operator.Environment.{Environment}
use influxdb_operator.Lifecycle.Reconcile.{Result}
use influxdb_operator.Organization
use influxdb_operator.Bucket.Defs as Bucket
use influxdb_operator.Token.Defs as Token

-- The variables that the flags set, and their defaults.
pub record Flags : Type 0 where
  pub metrics_addr : String
  pub probe_addr : String
  pub enable_leader_election : Bool

abbrev pub default_flags : Flags
default_flags = record {
  metrics_addr = ":8080";
  probe_addr = ":8081";
  enable_leader_election = false;
}

-- `ctrl.Options`, less the scheme.
pub record Options : Type 0 where
  pub metrics_bind_address : String
  pub port : ℕ
  pub health_probe_bind_address : String
  pub leader_election : Bool
  pub leader_election_id : String

abbrev pub options : Flags → Options
options flags = record {
  metrics_bind_address = flags.metrics_addr;
  port = 9443;
  health_probe_bind_address = flags.probe_addr;
  leader_election = flags.enable_leader_election;
  leader_election_id = "a5b1cc23.kubetrail.io";
}

-- The kind that is given to `For`, and the `Reconcile` of the reconciler that is given to `Complete`.
pub record Controller (E : Environment) : Type 0 where
  pub kind : String
  pub reconcile : NamespacedName → M E.World Result

-- The calls of controller-runtime: `AddToScheme` of client-go and of this API group, `GetConfigOrDie`,
-- `NewManager`, the builders of controllers and of webhooks, the checks of the manager, and `Start`,
-- which answers once the manager has stopped.
pub record Runtime (E : Environment) (W : Type 0) : Type 0 where
  pub add_client_go : W → Reply (Unit {0}) × W
  pub add_v1beta1 : W → Reply (Unit {0}) × W
  pub get_config : W → Reply (Unit {0}) × W
  pub new_manager : Options → W → Reply (Unit {0}) × W
  pub new_controller : Controller E → W → Reply (Unit {0}) × W
  pub new_webhook : String → W → Reply (Unit {0}) × W
  pub add_healthz_check : String → W → Reply (Unit {0}) × W
  pub add_readyz_check : String → W → Reply (Unit {0}) × W
  pub start : W → Reply (Unit {0}) × W

-- How the process ends: `main` returns, `os.Exit`, or a panic.
pub data Exit : Type 0 where
  returned : Exit
  exited : ℕ → Exit
  panicked : Exit

module _ {W : Type 0} where
  abbrev pub go_on : Reply (Unit {0}) → Exit → (W → Exit × W) → W → Exit × W
  go_on (reply _) failure rest w = rest w
  go_on (refuse e) failure rest w = (failure, w)

  -- `if err := f(); err != nil { os.Exit(1) }`
  abbrev pub attempt : (W → Reply (Unit {0}) × W) → (W → Exit × W) → W → Exit × W
  attempt f rest w = let (r, w') = f w in go_on r (exited 1) rest w'

  -- `utilruntime.Must(f())`
  abbrev pub must : (W → Reply (Unit {0}) × W) → (W → Exit × W) → W → Exit × W
  must f rest w = let (r, w') = f w in go_on r panicked rest w'

  abbrev pub ended : W → Exit × W
  ended w = (returned, w)

module _ (E : Environment) {W : Type 0} (R : Runtime E W) where
  -- `SetupWithManager` of the three controllers.
  unfoldable pub setup_organization_controller : W → Reply (Unit {0}) × W
  setup_organization_controller =
      R.new_controller (record { kind = "Organization"; reconcile = Organization.reconcile E })

  unfoldable pub setup_bucket_controller : W → Reply (Unit {0}) × W
  setup_bucket_controller =
      R.new_controller (record { kind = "Bucket"; reconcile = Bucket.reconcile E })

  unfoldable pub setup_token_controller : W → Reply (Unit {0}) × W
  setup_token_controller =
      R.new_controller (record { kind = "Token"; reconcile = Token.reconcile E })

  -- `SetupWebhookWithManager` of the four kinds.
  unfoldable pub setup_config_webhook : W → Reply (Unit {0}) × W
  setup_config_webhook = R.new_webhook "Config"

  unfoldable pub setup_organization_webhook : W → Reply (Unit {0}) × W
  setup_organization_webhook = R.new_webhook "Organization"

  unfoldable pub setup_bucket_webhook : W → Reply (Unit {0}) × W
  setup_bucket_webhook = R.new_webhook "Bucket"

  unfoldable pub setup_token_webhook : W → Reply (Unit {0}) × W
  setup_token_webhook = R.new_webhook "Token"

  unfoldable pub main : Flags → W → Exit × W
  unfolding setup_organization_controller setup_bucket_controller setup_token_controller
      setup_config_webhook setup_organization_webhook setup_bucket_webhook setup_token_webhook
  main flags = attempt R.get_config (
      attempt (R.new_manager (options flags)) (
        attempt setup_organization_controller (
          attempt setup_bucket_controller (
            attempt setup_token_controller (
              attempt setup_config_webhook (
                attempt setup_organization_webhook (
                  attempt setup_bucket_webhook (
                    attempt setup_token_webhook (
                      attempt (R.add_healthz_check "healthz")
                        (attempt (R.add_readyz_check "readyz") (attempt R.start ended)))))))))))

  -- `init` runs before `main`.
  unfoldable pub run_process : Flags → W → Exit × W
  unfolding main
  run_process flags = must R.add_client_go (must R.add_v1beta1 (main flags))
