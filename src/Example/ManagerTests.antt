-- ===== src/Example/ManagerTests.antt =====
-- The start of the process, with a controller-runtime that refuses one webhook.
use influxdb_operator.Base.{ℕ, suc, String, ◌≡◌, refl, ◌==◌, if◌then◌else◌, []}
use influxdb_operator.Effect.{Reply, reply, refuse}
use influxdb_operator.Manager.{Runtime, exited, returned, default_flags, run_process}
use influxdb_operator.Manager.Calls.{recording, plan, IsRun, run_process-IsRun}
use influxdb_operator.Example.Memory.{memory, http_error}

abbrev answered : ℕ → Reply (Unit {0}) × ℕ
answered n = (reply tt, suc n)

-- The world counts the calls that were answered.
abbrev refusing : String → Runtime memory ℕ
refusing kind = record {
  add_client_go = answered;
  add_v1beta1 = answered;
  get_config = answered;
  new_manager = λ o. answered;
  new_controller = λ c. answered;
  new_webhook = λ k n. if k == kind then (refuse (http_error 500), n) else answered n;
  add_healthz_check = λ c. answered;
  add_readyz_check = λ c. answered;
  start = answered;
}

bucket_webhook_refused : run_process memory (refusing "Bucket") default_flags 0 ≡ (exited 1, 9)
unfolding run_process
bucket_webhook_refused = refl

nothing_refused : run_process memory (refusing "") default_flags 0 ≡ (returned, 14)
unfolding run_process
nothing_refused = refl

run_process-IsRun_example :
    IsRun
      (plan memory default_flags)
      (run_process memory
        (recording memory (refusing "Bucket"))
        default_flags
        (record { world = 0; calls = [] })).1.calls
      (run_process memory
        (recording memory (refusing "Bucket"))
        default_flags
        (record { world = 0; calls = [] })).0
run_process-IsRun_example = run_process-IsRun memory (refusing "Bucket") default_flags 0
