-- ===== src/Token/Sync.antt =====
-- `ReconcileResources` of the Token controller under healthy servers.
use influxdb_operator.Base.{String, ◌≡◌, refl, ◌∙◌, sym, ap, true, false, ◌&&◌, none, some, [], ◌∷◌}
use influxdb_operator.Base.{arith, Option-cases, inl, inr}
use mathlib.Core.Path.{subst}
use influxdb_operator.Effect.{Sys, ok, throw}
use influxdb_operator.Api.{NamespacedName, Token, Config}
use influxdb_operator.Environment.{Environment, Secret, InfluxOrganization}
use influxdb_operator.Const.{key_token_id, reason_created_token}
use influxdb_operator.Lifecycle.Conditions.{has_reason}
use influxdb_operator.Lifecycle.Handlers.{has_finalizer}
use influxdb_operator.Lifecycle.Server.{IsServer, Sees, Gives}
use influxdb_operator.Lifecycle.Configured.{valid_id-id, connection_of-IsAdmin, connection_of}
use influxdb_operator.Lifecycle.Rules.{check-ok, mark_created_settled}
use influxdb_operator.Lifecycle.Sync.{IsSync}
use influxdb_operator.Lifecycle.Rest.{both}
use influxdb_operator.Token.Data.{find_authorization, description_of, Issued}
use influxdb_operator.Token.Defs.{obtain, write_secret, reconcile_resources}
use influxdb_operator.Token.Server.{
  IsGrantable, home_of, Remote, IsInflux, IsUsable, holds, present, secret_name_of,
}
use influxdb_operator.Token.Steps.{write_secret-Gives}
use influxdb_operator.Token.Obtain.{
  find_authorization-IsComplete, find_authorization-append, All-append, create_token-Gives, grown,
  connected, finish,
}
use influxdb_operator.Token.Present.{
  Needs, Pending, mark-Pending, existing, issued_lem, usable_kept_lem,
}

module _ (E : Environment) (req config_name secret_name : NamespacedName)
    (S : IsServer E E.tokens req Remote) (I : IsInflux E req config_name secret_name S) where
  module _ (o : Token) (r : Remote) (named : home_of o req ≡ config_name)
      (secret_named : secret_name_of o ≡ secret_name) (c : Config) (x : Secret)
      (org : InfluxOrganization) (id : String) (u : IsUsable secret_name r c x org id)
      (grantable : IsGrantable o.spec.permissions) where
    -- The Secret's write keeps what the Token needs.
    written-Needs :
        (y : Secret)
        → (Needs E req config_name secret_name S I) o (record r { token_secret = some y })
    written-Needs y = (
      grantable,
      (
        named,
        secret_named,
        c,
        x,
        org,
        id,
        record {
          config = u.config;
          secret = u.secret;
          organization = u.organization;
          token = u.token;
          valid = u.valid;
          apart = u.apart;
          complete = u.complete;
        },
      ),
    )

    -- A call on a Token whose authorization is not there.
    created-Pending :
        (s : Sys E.World)
        → Sees E E.tokens req S s (some o) r
        → has_finalizer E o ≡ true
        → find_authorization (description_of o) r.authorizations ≡ none
        → Pending E req config_name secret_name S I o (reconcile_resources E o req s)
    unfolding obtain
    created-Pending s h found missing =
        connected E req config_name secret_name S I o r c x org id u
          (Pending E req config_name secret_name S I o) s h named found
          (λ s' h'.
            let (a, a_id, token, ei, et, described, g) =
              create_token-Gives E req config_name secret_name S I o r (connection_of c x) org.name
                org id s' (connection_of-IsAdmin c x u.config u.secret u.token) u.organization
                (valid_id-id org id u.valid) grantable h' in
            let i : Issued = record {
              token_id = a_id;
              token = token;
              exists = false;
              created = true;
            } in
            let r₁ = grown E req config_name secret_name S I o r a in
            rw missing (
              check-ok E E.tokens req S (Pending E req config_name secret_name S I o)
                (obtain E o (connection_of c x) org.name id none) throw
                (finish E req config_name secret_name S I o r c x org id u) s' i (some o) r₁ g
                (λ s'' h''.
                  let (y, held, kept, g') =
                    write_secret-Gives E req config_name secret_name S I o r₁ c u.config u.apart
                      secret_named i s'' h'' refl in
                  check-ok E E.tokens req S (Pending E req config_name secret_name S I o)
                    (write_secret E o i) throw _ s'' tt (some o)
                    (record r₁ { token_secret = some y }) g'
                    (λ s₃ h₃.
                      mark-Pending E req config_name secret_name S I true
                        (some ((key_token_id, a_id) ∷ [])) s₃ o
                        (record r₁ { token_secret = some y }) h₃
                        (
                          grantable,
                          (
                            named,
                            secret_named,
                            c,
                            x,
                            org,
                            id,
                            record {
                              config = u.config;
                              secret = u.secret;
                              organization = u.organization;
                              token = u.token;
                              valid = u.valid;
                              apart = u.apart;
                              complete =
                                  All-append r.authorizations a u.complete (a_id, token, ei, et);
                            },
                          ),
                        )
                        (rw
                          (find_authorization-append (description_of o) r.authorizations a missing
                            described)
                          (issued_lem a token (some y) et ∙ held))))))

    pending :
        (s : Sys E.World)
        → Sees E E.tokens req S s (some o) r
        → has_finalizer E o ≡ true
        → Pending E req config_name secret_name S I o (reconcile_resources E o req s)
    pending s h found =
        elim (Option-cases (find_authorization (description_of o) r.authorizations)) [
          | inl missing ↦ created-Pending s h found missing
          | inr (a, finds) ↦
              let (a_id, token, ei, et) =
                find_authorization-IsComplete (description_of o) r.authorizations a u.complete
                  finds in
              existing E req config_name secret_name S I o r named secret_named c x org id u
                (Pending E req config_name secret_name S I o) a a_id token s h found finds ei et
                (λ y s' held kept h'.
                  mark-Pending E req config_name secret_name S I false
                    (some ((key_token_id, a_id) ∷ [])) s' o (record r { token_secret = some y }) h'
                    (written-Needs y) (rw finds (issued_lem a token (some y) et ∙ held)))
        ]

    settled :
        (s : Sys E.World)
        → Sees E E.tokens req S s (some o) r
        → has_finalizer E o ≡ true
        → has_reason reason_created_token o.status.conditions && present o r ≡ true
        → Gives E E.tokens req S (reconcile_resources E o req s) (ok tt) (some o) r
    settled s h found ready =
        let (old, there) =
          both (has_reason reason_created_token o.status.conditions) (present o r) ready in
        elim (Option-cases (find_authorization (description_of o) r.authorizations)) [
          | inl missing ↦ absurd (let bad : false ≡ true = rw missing at there in ground arith)
          | inr (a, finds) ↦
              let (a_id, token, ei, et) =
                find_authorization-IsComplete (description_of o) r.authorizations a u.complete
                  finds in
              existing E req config_name secret_name S I o r named secret_named c x org id u
                (λ t. Gives E E.tokens req S t (ok tt) (some o) r) a a_id token s h found finds ei
                et
                (λ y s' held kept h'.
                  let holding : holds token r.token_secret ≡ true =
                    sym (issued_lem a token r.token_secret et) ∙ (rw finds at there) in
                  mark_created_settled E E.tokens none req S reason_created_token
                    "created influxdb token" (some ((key_token_id, a_id) ∷ [])) s' o r
                    (h'.0, h'.1 ∙ ap (λ m. record r { token_secret = m }) (kept holding)) old)
        ]

  pub token-IsSync :
      IsSync E E.tokens req S
        (reconcile_resources E)
        reason_created_token
        (Needs E req config_name secret_name S I)
        present
  token-IsSync = record {
    present_key = λ o p r k. rw (k.name, k.namespace, k.uid) refl;
    usable_kept = λ o p r k e (grantable, usable). (
      subst (λ spec. IsGrantable spec.permissions) e grantable,
      usable_kept_lem E req config_name secret_name o p r k e usable,
    );
    settled = λ s o r h (grantable, (named, secret_named, c, x, org, id, u)) found ready.
        settled o r named secret_named c x org id u grantable s h found ready;
    pending = λ s o r h (grantable, (named, secret_named, c, x, org, id, u)) found missing.
        pending o r named secret_named c x org id u grantable s h found;
  }
