-- ===== src/Token/Present.antt =====
-- `ReconcileResources` of the Token controller under healthy servers, where the authorization is there.
use influxdb_operator.Base.{
  String, ◌≡◌, refl, ◌∙◌, sym, ap, Bool, true, false, Option, none, some, [], ◌∷◌,
}
use influxdb_operator.Base.{Bool-cases, inl, inr}
use influxdb_operator.Base.Dict.{Dict}
use influxdb_operator.Effect.{Sys, Outcome, ok, throw}
use influxdb_operator.Api.{NamespacedName, Token, Config}
use influxdb_operator.Environment.{Environment, Secret, InfluxOrganization, Authorization}
use influxdb_operator.Const.{key_token_id, reason_created_token}
use influxdb_operator.Lifecycle.Conditions.{has_reason}
use influxdb_operator.Lifecycle.Handlers.{has_finalizer, mark_created}
use influxdb_operator.Lifecycle.Server.{IsServer, SameKey, Sees}
use influxdb_operator.Lifecycle.Configured.{connection_of}
use influxdb_operator.Lifecycle.Rules.{
  check-ok, mark_created_settled, mark_created_first, mark_created_again,
}
use influxdb_operator.Lifecycle.Rest.{both, Recorded-Pending, repeat-IsDone}
use influxdb_operator.Lifecycle.Rest
use influxdb_operator.Token.Data.{find_authorization, description_of, Issued}
use influxdb_operator.Token.Defs.{obtain, write_secret, reconcile_resources}
use influxdb_operator.Token.Server.{
  IsGrantable, home_of, Remote, IsInflux, IsUsable, Usable, issued, holds, present, secret_name_of,
}
use influxdb_operator.Token.Steps.{write_secret-Gives}
use influxdb_operator.Token.Obtain.{use_existing-Gives, connected, finish}

pub issued_lem :
    (a : Authorization) (token : String) (x : Option Secret)
    → a.token ≡ some token
    → issued (some a) x ≡ holds token x
issued_lem a token x e = rw e refl

secret_name_kept :
    (o p : Token)
    → o.namespace ≡ p.namespace
    → o.spec ≡ p.spec
    → secret_name_of p ≡ secret_name_of o
secret_name_kept o p n e = rw (n, e) refl

pub usable_kept_lem :
    (E : Environment) (req config_name secret_name : NamespacedName) (o p : Token) (r : Remote)
    → SameKey o p
    → o.spec ≡ p.spec
    → Usable E req config_name secret_name o r
    → Usable E req config_name secret_name p r
usable_kept_lem E req config_name secret_name o p r k e (named, secret_named, c, x, org, id, u) = (
  ap (λ spec. record { namespace = req.namespace; name = spec.config_name }) (sym e) ∙ named,
  secret_name_kept o p k.namespace e ∙ secret_named,
  c,
  x,
  org,
  id,
  u,
)

module _ (E : Environment) (req config_name secret_name : NamespacedName)
    (S : IsServer E E.tokens req Remote) (I : IsInflux E req config_name secret_name S) where
  -- InfluxDB grants the permissions of the Token, and all that the controller needs is there.
  abbrev pub Needs : Token → Remote → Type 0
  Needs o r = IsGrantable o.spec.permissions × Usable E req config_name secret_name o r

  abbrev pub Pending : Token → Outcome (Unit {0}) × Sys E.World → Type 0
  Pending = Rest.Pending E E.tokens none req S reason_created_token Needs present

  -- Once the Secret holds the token, the status is written where it is due.
  pub mark-Pending :
      (created : Bool) (values : Option (Dict String)) (s : Sys E.World) (o : Token) (r : Remote)
      → Sees E E.tokens req S s (some o) r
      → Needs o r
      → present o r ≡ true
      → Pending o (
          mark_created E E.tokens none reason_created_token "created influxdb token" created values
            o s)
  mark-Pending created values s o r h needs there =
      let recorded =
        Recorded-Pending E E.tokens none req S reason_created_token Needs present
          "created influxdb token" values s o r h
          (mark_created E E.tokens none reason_created_token "created influxdb token" created values
            o s)
          refl (λ st. needs) there in
      elim (Bool-cases (has_reason reason_created_token o.status.conditions)) [
        | inr fresh ↦ recorded (
            mark_created_first E E.tokens none req S reason_created_token "created influxdb token"
              values s o r h created fresh)
        | inl old ↦ elim (Bool-cases created) [
          | inl now ↦ recorded (
              rw now (
                mark_created_again E E.tokens none req S reason_created_token
                  "created influxdb token" values s o r h old))
          | inr before ↦ (
            ok tt,
            o.status,
            r,
            rw before (
                mark_created_settled E E.tokens none req S reason_created_token
                  "created influxdb token" values s o r h old),
            inr refl,
            needs,
            rw (old, there) refl,
            refl,
          )
        ]
      ]

  module _ (o : Token) (r : Remote) (named : home_of o req ≡ config_name)
      (secret_named : secret_name_of o ≡ secret_name) (c : Config) (x : Secret)
      (org : InfluxOrganization) (id : String) (u : IsUsable secret_name r c x org id) where
    -- A call on a Token whose authorization is there: what follows the write of the Secret is left.
    pub existing :
        (P : Outcome (Unit {0}) × Sys E.World → Type 0) (a : Authorization) (a_id token : String)
        (s : Sys E.World)
        → Sees E E.tokens req S s (some o) r
        → has_finalizer E o ≡ true
        → find_authorization (description_of o) r.authorizations ≡ some a
        → a.id ≡ some a_id
        → a.token ≡ some token
        → ((y : Secret) (s' : Sys E.World)
            → holds token (some y) ≡ true
            → (holds token r.token_secret ≡ true → some y ≡ r.token_secret)
            → Sees E E.tokens req S s' (some o) (record r { token_secret = some y })
            → P (
                mark_created E E.tokens none reason_created_token "created influxdb token" false
                  (some ((key_token_id, a_id) ∷ []))
                  o
                  s'))
        → P (reconcile_resources E o req s)
    unfolding obtain
    existing P a a_id token s h found finds ei et k =
        connected E req config_name secret_name S I o r c x org id u P s h named found (λ s' h'.
          let i : Issued = record {
            token_id = a_id;
            token = token;
            exists = true;
            created = false;
          } in
          rw finds (
            check-ok E E.tokens req S P (obtain E o (connection_of c x) org.name id (some a)) throw
              (finish E req config_name secret_name S I o r c x org id u) s' i (some o) r
              (use_existing-Gives E req config_name secret_name S I o r a a_id token s' h' ei et)
              (λ s'' h''.
                let (y, held, kept, g) =
                  write_secret-Gives E req config_name secret_name S I o r c u.config u.apart
                    secret_named i s'' h'' refl in
                check-ok E E.tokens req S P (write_secret E o i) throw _ s'' tt (some o)
                  (record r { token_secret = some y }) g (λ s₃ h₃. k y s₃ held kept h₃))))
