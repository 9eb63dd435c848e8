-- ===== src/Manager/Calls.antt =====
-- What the process asks of controller-runtime, and how it ends.
use influxdb_operator.Base.{Bool, true, false, String, ◌≡◌, refl, ◌∙◌, sym, List, [], ◌∷◌, ◌++◌}
use mathlib.Core.Path.{subst}
use mathlib.Core.List.{append_assoc, append-nil}
use influxdb_operator.Effect.{Reply, reply, refuse}
use influxdb_operator.Environment.{Environment}
use influxdb_operator.Manager.{
  Flags, Options, options, Controller, Runtime, Exit, returned, exited, panicked, go_on, ended,
  run_process,
}
use influxdb_operator.Organization
use influxdb_operator.Bucket.Defs as Bucket
use influxdb_operator.Token.Defs as Token

pub data Call (E : Environment) : Type 0 where
  client_go_scheme : Call E
  v1beta1_scheme : Call E
  config : Call E
  manager : Options → Call E
  controller : Controller E → Call E
  webhook : String → Call E
  healthz : String → Call E
  readyz : String → Call E
  start : Call E

-- Whether a call was answered without an error.
abbrev pub is_answered : Reply (Unit {0}) → Bool
is_answered (reply _) = true
is_answered (refuse e) = false

-- A world with the calls that were made, in their order, each with whether it was answered.
pub record Recorded (E : Environment) (W : Type 0) : Type 0 where
  pub world : W
  pub calls : List (Call E × Bool)

abbrev pub noting :
    {E : Environment} {W : Type 0}
    → Call E
    → (W → Reply (Unit {0}) × W)
    → Recorded E W
    → Reply (Unit {0}) × Recorded E W
noting c f j =
    let (r, w) = f j.world in (r, record { world = w; calls = j.calls ++ (c, is_answered r) ∷ [] })

abbrev pub recording : (E : Environment) {W : Type 0} → Runtime E W → Runtime E (Recorded E W)
recording E R = record {
  add_client_go = noting client_go_scheme R.add_client_go;
  add_v1beta1 = noting v1beta1_scheme R.add_v1beta1;
  get_config = noting config R.get_config;
  new_manager = λ o. noting (manager o) (R.new_manager o);
  new_controller = λ c. noting (controller c) (R.new_controller c);
  new_webhook = λ k. noting (webhook k) (R.new_webhook k);
  add_healthz_check = λ n. noting (healthz n) (R.add_healthz_check n);
  add_readyz_check = λ n. noting (readyz n) (R.add_readyz_check n);
  start = noting start R.start;
}

-- The calls that were made are the first ones of the plan; all of them if each was answered, and then the
-- process returned; otherwise up to the first that failed, which decides how it ended. The plan gives each
-- call with the end that follows its failure.
pub data IsRun {A : Type 0} : List (A × Exit) → List (A × Bool) → Exit → Type 0 where
  complete : IsRun [] [] returned
  failed :
      {c : A} {exit : Exit} {plan : List (A × Exit)}
      → IsRun ((c, exit) ∷ plan) ((c, false) ∷ []) exit
  next :
      {c : A} {exit e : Exit} {plan : List (A × Exit)} {calls : List (A × Bool)}
      → IsRun plan calls e
      → IsRun ((c, exit) ∷ plan) ((c, true) ∷ calls) e

-- The plan of the process: the schemes, the configuration, the manager, the three controllers with their
-- `Reconcile`, the four webhooks, the two checks, and last the start.
abbrev pub plan : (E : Environment) → Flags → List (Call E × Exit)
plan E flags =
    (client_go_scheme, panicked)
    ∷ (v1beta1_scheme, panicked)
    ∷ (config, exited 1)
    ∷ (manager (options flags), exited 1)
    ∷ (
      controller (record { kind = "Organization"; reconcile = Organization.reconcile E }),
      exited 1,
    )
    ∷ (controller (record { kind = "Bucket"; reconcile = Bucket.reconcile E }), exited 1)
    ∷ (controller (record { kind = "Token"; reconcile = Token.reconcile E }), exited 1)
    ∷ (webhook "Config", exited 1)
    ∷ (webhook "Organization", exited 1)
    ∷ (webhook "Bucket", exited 1)
    ∷ (webhook "Token", exited 1)
    ∷ (healthz "healthz", exited 1)
    ∷ (readyz "readyz", exited 1)
    ∷ (start, exited 1)
    ∷ []

module _ {E : Environment} {W : Type 0} where
  -- Whatever the calls answer, the action follows the plan.
  abbrev Follows : List (Call E × Exit) → (Recorded E W → Exit × Recorded E W) → Type 0
  Follows ps m =
      (j : Recorded E W)
      → (calls : List (Call E × Bool)) × ((m j).1.calls ≡ j.calls ++ calls) × IsRun ps calls (m j).0

  ended-Follows : Follows [] ended
  ended-Follows j = ([], sym (append-nil j.calls), IsRun.complete)

  step-Follows :
      (c : Call E) (exit : Exit) (f : W → Reply (Unit {0}) × W)
      (rest : Recorded E W → Exit × Recorded E W) (ps : List (Call E × Exit))
      → Follows ps rest
      → Follows ((c, exit) ∷ ps) (λ j. go_on (noting c f j).0 exit rest (noting c f j).1)
  step-Follows c exit f rest ps h j = go (f j.world).0 (f j.world).1
    where
      after : Reply (Unit {0}) → W → Recorded E W
      after r w = record { world = w; calls = j.calls ++ (c, is_answered r) ∷ [] }

      go :
          (r : Reply (Unit {0})) (w : W)
          → (calls : List (Call E × Bool)) × ((go_on r exit rest (after r w)).1.calls
              ≡ j.calls ++ calls)
            × IsRun ((c, exit) ∷ ps) calls (go_on r exit rest (after r w)).0
      go (reply u) w =
          let (calls, e, run) = h (after (reply u) w) in
          ((c, true) ∷ calls, e ∙ append_assoc j.calls ((c, true) ∷ []) calls, IsRun.next run)
      go (refuse x) w = ((c, false) ∷ [], refl, IsRun.failed)

module _ (E : Environment) {W : Type 0} (R : Runtime E W) (flags : Flags) where
  abbrev Goal : List (Call E × Exit) → (Recorded E W → Exit × Recorded E W) → Type 0
  Goal = Follows {E = E} {W = W}

  abbrev organization : Controller E
  organization = record { kind = "Organization"; reconcile = Organization.reconcile E }

  abbrev bucket : Controller E
  bucket = record { kind = "Bucket"; reconcile = Bucket.reconcile E }

  abbrev token : Controller E
  token = record { kind = "Token"; reconcile = Token.reconcile E }

  process-Follows : Goal (plan E flags) (run_process E (recording E R) flags)
  unfolding run_process
  process-Follows = step-Follows _ panicked R.add_client_go _ _ (
      step-Follows _ panicked R.add_v1beta1 _ _ (
        step-Follows _ (exited 1) R.get_config _ _ (
          step-Follows _ (exited 1) (R.new_manager (options flags)) _ _ (
            step-Follows _ (exited 1) (R.new_controller organization) _ _ (
              step-Follows _ (exited 1) (R.new_controller bucket) _ _ (
                step-Follows _ (exited 1) (R.new_controller token) _ _ (
                  step-Follows _ (exited 1) (R.new_webhook "Config") _ _ (
                    step-Follows _ (exited 1) (R.new_webhook "Organization") _ _ (
                      step-Follows _ (exited 1) (R.new_webhook "Bucket") _ _ (
                        step-Follows _ (exited 1) (R.new_webhook "Token") _ _ (
                          step-Follows _ (exited 1) (R.add_healthz_check "healthz") _ _ (
                            step-Follows _ (exited 1) (R.add_readyz_check "readyz") _ _
                              (step-Follows _ (exited 1) R.start _ _ ended-Follows)))))))))))))

-- Whatever controller-runtime answers, the process asks for the first ones of these calls, in this
-- order: the two schemes, the configuration, the manager with the options of the flags, the controllers
-- of Organization, Bucket and Token with their `Reconcile`, the webhooks of Config, Organization, Bucket
-- and Token, the two checks, and the start. It returns exactly if all were answered without an error;
-- otherwise the call that failed is the last one, and the process panics if it was a scheme, and exits
-- with the code 1 if it was another.
pub run_process-IsRun :
    (E : Environment) {W : Type 0} (R : Runtime E W) (flags : Flags) (w : W)
    → let s = run_process E (recording E R) flags (record { world = w; calls = [] }) in
      IsRun (plan E flags) s.1.calls s.0
run_process-IsRun E R flags w =
    let (calls, e, run) = process-Follows E R flags (record { world = w; calls = [] }) in
    subst
      (λ cs.
        IsRun (plan E flags) cs
          (run_process E (recording E R) flags (record { world = w; calls = [] })).0)
      (sym e) run
