-- ===== src/Token/Obtain.antt =====
-- The authorization of a Token under healthy servers: found by its description, or created.
use influxdb_operator.Base.{
  ◌⊎◌, ◌≢◌, ◌==◌, eq_iff, String, ◌≡◌, refl, ◌∙◌, sym, ap, true, false, ◌<>◌, eq_refl, none, some,
  List, [], ◌∷◌, ◌++◌, All,
}
use influxdb_operator.Base.{arith, Bool-cases, inl, inr}
use mathlib.Core.List.{Memᴰ}
use influxdb_operator.Webhook.Const.{resource_types, resource_type_orgs}
use influxdb_operator.Effect.{Sys, M, Outcome, ok, reply, call, throw, ◌>>=◌, ◌>>◌}
use influxdb_operator.Api.{Permission, NamespacedName, Token, Config}
use influxdb_operator.Environment.{
  Environment, Connection, Authorization, NewAuthorization, Secret, InfluxOrganization,
}
use influxdb_operator.Const.{key_token_id, reason_created_token}
use influxdb_operator.Lifecycle.Connect.{log_daily, need_config, connect}
use influxdb_operator.Lifecycle.Handlers.{has_finalizer, mark_created}
use influxdb_operator.Lifecycle.Server.{IsServer, Sees, Gives}
use influxdb_operator.Lifecycle.Configured.{IsAdmin, connection_of, get_config-Gives, connect-Gives}
use influxdb_operator.Lifecycle.Rules.{check-ok, call-Gives, log_daily-Gives, need_valid_id_lem}
use influxdb_operator.Token.Data.{
  Issued, find_authorization, is_described, description_of, to_permissions, to_permission,
}
use influxdb_operator.Token.Defs.{
  obtain, create_token, use_existing, read_created, write_secret, reconcile_resources,
  need_authorizations,
}
use influxdb_operator.Token.Server.{
  IsAction, IsGrantable, IsPermitted, home_of, Remote, IsInflux, IsComplete, IsUsable,
}

pub find_authorization-IsComplete :
    (d : String) (xs : List Authorization) (a : Authorization)
    → All IsComplete xs
    → find_authorization d xs ≡ some a
    → IsComplete a
unfolding find_authorization
find_authorization-IsComplete d [] a h e = absurd (ground arith)
find_authorization-IsComplete d (b ∷ bs) a (hb, hs) e = elim (Bool-cases (is_described d b)) [
  | inl same ↦
      let found : some b ≡ some a = rw same at e in
      let (id, token, ei, et) = hb in
      let same_ab : b ≡ a = ground arith in
      (id, token, ap (λ c. c.id) (sym same_ab) ∙ ei, ap (λ c. c.token) (sym same_ab) ∙ et)
  | inr other ↦
      let later : find_authorization d bs ≡ some a = rw other at e in
      find_authorization-IsComplete d bs a hs later
]

pub All-append :
    (xs : List Authorization) (a : Authorization)
    → All IsComplete xs
    → IsComplete a
    → All IsComplete (xs ++ a ∷ [])
All-append [] a h c = (c, tt)
All-append (b ∷ bs) a (hb, h) c = (hb, All-append bs a h c)

pub find_authorization-append :
    (d : String) (xs : List Authorization) (a : Authorization)
    → find_authorization d xs ≡ none
    → a.description ≡ some d
    → find_authorization d (xs ++ a ∷ []) ≡ some a
unfolding find_authorization is_described
find_authorization-append d [] a h e = ground (arith, eq_refl d)
find_authorization-append d (b ∷ bs) a h e = ground (arith, find_authorization-append d bs a)

to_permissions-All :
    (org_name id : String) (ps : List Permission)
    → All (λ p. IsAction p.permission_type × Memᴰ p.resource_type resource_types) ps
    → All
        (λ p.
          IsAction p.action
          × Memᴰ p.resource_type resource_types
          × ((p.resource_type ≡ "orgs") ⊎ (p.resource_org_id ≡ some id)))
        (to_permissions org_name id ps)
unfolding to_permissions to_permission
to_permissions-All org_name id [] h = tt
to_permissions-All org_name id (p ∷ ps) ((action, type), h) =
    elim (Bool-cases (p.resource_type == resource_type_orgs)) [
      | inl orgs ↦ rw orgs (
        (action, type, inl ((eq_iff p.resource_type "orgs").0 orgs)),
        to_permissions-All org_name id ps h,
      )
      | inr others ↦ rw others ((action, type, inr refl), to_permissions-All org_name id ps h)
    ]

to_permissions-ne_nil :
    (org_name id : String) (ps : List Permission) → ps ≢ [] → to_permissions org_name id ps ≢ []
unfolding to_permissions
to_permissions-ne_nil org_name id [] ne = absurd (ne refl)
to_permissions-ne_nil org_name id (p ∷ ps) ne = λ e. cc

to_permissions-IsPermitted :
    (org_name id : String) (ps : List Permission)
    → IsGrantable ps
    → IsPermitted id (to_permissions org_name id ps)
to_permissions-IsPermitted org_name id ps (ne, h) =
    (to_permissions-ne_nil org_name id ps ne, to_permissions-All org_name id ps h)

module _ (E : Environment) (req config_name secret_name : NamespacedName)
    (S : IsServer E E.tokens req Remote) (I : IsInflux E req config_name secret_name S) (o : Token)
    (r : Remote) where
  pub use_existing-Gives :
      (a : Authorization) (id token : String) (s : Sys E.World)
      → Sees E E.tokens req S s (some o) r
      → a.id ≡ some id
      → a.token ≡ some token
      → Gives E E.tokens req S
          (use_existing E o a s)
          (ok (record { token_id = id; token = token; exists = true; created = false }))
          (some o)
          r
  unfolding use_existing
  use_existing-Gives a id token s h ei et =
      check-ok E E.tokens req S
        (λ t.
          Gives E E.tokens req S t
            (ok (record { token_id = id; token = token; exists = true; created = false })) (some o)
            r)
        (log_daily E (o.uid <> "-" <> "token")) throw _ s tt (some o) r
        (log_daily-Gives E E.tokens req S _ s (some o) r h)
        (λ s' h'. rw (ei, et) (refl, h'.0, h'.1))

  abbrev pub grown : Authorization → Remote
  grown a = record r { authorizations = r.authorizations ++ a ∷ [] }

  pub create_token-Gives :
      (k : Connection) (org_name : String) (org : InfluxOrganization) (org_id : String)
      (s : Sys E.World)
      → IsAdmin r.config r.secret k
      → r.organization ≡ some org
      → org.id ≡ some org_id
      → IsGrantable o.spec.permissions
      → Sees E E.tokens req S s (some o) r
      → (a : Authorization) × (id : String) × (token : String) × (a.id ≡ some id)
        × (a.token ≡ some token)
        × (a.description ≡ some (description_of o))
        × Gives E E.tokens req S
            (create_token E o k org_name org_id s)
            (ok (record { token_id = id; token = token; exists = false; created = true }))
            (some o)
            (grown a)
  unfolding create_token read_created
  create_token-Gives k org_name org org_id s client home its_id grantable (eo, er) =
      let n : NewAuthorization = record {
        description = description_of o;
        org_id = some org_id;
        permissions = to_permissions org_name org_id o.spec.permissions;
      } in
      let (id, token, (accepted, stored)) =
        I.create_authorization_accepted s.world k n org org_id (rw er client) (rw er home) its_id
          refl (to_permissions-IsPermitted org_name org_id o.spec.permissions grantable) in
      (
        record { id = some id; token = some token; description = some (description_of o) },
        id,
        token,
        refl,
        refl,
        refl,
        rw (ap (λ p. p.1) accepted, ap (λ p. p.0) accepted)
            (
              refl,
              I.object-create_authorization s.world k n ∙ eo,
              stored
                  ∙ ap
                      (λ (y : Remote). record y {
                        authorizations =
                            y.authorizations
                            ++ record {
                              id = some id;
                              token = some token;
                              description = some (description_of o);
                            }
                              ∷ [];
                      })
                      er,
            ),
      )

  -- From the Config to the list of authorizations: what follows is left.
  module _ (c : Config) (x : Secret) (org : InfluxOrganization) (id : String)
      (u : IsUsable secret_name r c x org id) where
    pub find_organization-Gives :
        (s : Sys E.World)
        → Sees E E.tokens req S s (some o) r
        → Gives E E.tokens req S
            (call (E.influx.find_organization_by_name (connection_of c x) c.spec.org_name) s)
            (ok (some org))
            (some o)
            r
    find_organization-Gives s (eo, er) =
        let k = connection_of c x in
        call-Gives E E.tokens req S (E.influx.find_organization_by_name k c.spec.org_name) s
          (reply (some org)) (some o) r (I.find_organization_found c x org id (rw er u))
          (I.object-find_organization s.world k c.spec.org_name ∙ eo)
          (I.remote-find_organization s.world k c.spec.org_name ∙ er)

    pub find_authorizations-Gives :
        (s : Sys E.World)
        → Sees E E.tokens req S s (some o) r
        → Gives E E.tokens req S
            (call (E.influx.find_authorizations_by_org_id (connection_of c x) id) s)
            (ok (some r.authorizations))
            (some o)
            r
    find_authorizations-Gives s (eo, er) =
        let k = connection_of c x in
        call-Gives E E.tokens req S (E.influx.find_authorizations_by_org_id k id) s
          (reply (some r.authorizations)) (some o) r
          (I.find_authorizations_found c x org id (rw er u) ∙ rw er refl)
          (I.object-find_authorizations s.world k id ∙ eo)
          (I.remote-find_authorizations s.world k id ∙ er)

    -- What follows the search for the authorization.
    abbrev pub finish : Issued → M E.World (Unit {0})
    finish issued =
        write_secret E o issued
        >> mark_created E E.tokens none reason_created_token "created influxdb token" issued.created
            (some ((key_token_id, issued.token_id) ∷ [])) o

    pub connected :
        (P : Outcome (Unit {0}) × Sys E.World → Type 0) (s : Sys E.World)
        → Sees E E.tokens req S s (some o) r
        → home_of o req ≡ config_name
        → has_finalizer E o ≡ true
        → ((s' : Sys E.World)
            → Sees E E.tokens req S s' (some o) r
            → P (
                (obtain E o
                      (connection_of c x)
                      org.name
                      id
                      (find_authorization (description_of o) r.authorizations)
                    >>= finish)
                  s'))
        → P (reconcile_resources E o req s)
    unfolding reconcile_resources need_config need_authorizations
    connected P s h named found k =
        rw (found, named)
          (check-ok E E.tokens req S P (call (E.get_config config_name)) throw _ s c (some o) r
            (get_config-Gives E E.tokens req S config_name (λ (y : Remote). y.config)
              (λ (y : Remote). y.secret) I.configured o r c x u.config s h)
            (λ s₁ h₁.
              check-ok E E.tokens req S P (connect E c) throw _ s₁ (connection_of c x) (some o) r
                (connect-Gives E E.tokens req S config_name (λ (y : Remote). y.config)
                  (λ (y : Remote). y.secret) I.configured o r c x u.config s₁ h₁ u.secret)
                (λ s₂ h₂.
                  check-ok E E.tokens req S P
                    (call (E.influx.find_organization_by_name (connection_of c x) c.spec.org_name))
                    throw _ s₂ (some org) (some o) r (find_organization-Gives s₂ h₂)
                    (λ s₃ h₃. rw (need_valid_id_lem E (some org) id s₃ u.valid) (
                      check-ok E E.tokens req S P
                        (call (E.influx.find_authorizations_by_org_id (connection_of c x) id)) throw
                        _ s₃ (some r.authorizations) (some o) r (find_authorizations-Gives s₃ h₃)
                        k)))))
