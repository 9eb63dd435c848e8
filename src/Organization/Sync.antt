-- ===== src/Organization/Sync.antt =====
-- `ReconcileResources` of the Organization controller under healthy servers.
use influxdb_operator.Base.{
  String, ◌≡◌, refl, ◌∙◌, sym, ap, Bool, true, false, ◌==◌, eq_refl, ◌&&◌, Option, none, some, List,
  [], ◌∷◌, ◌++◌,
}
use influxdb_operator.Base.{arith, Bool-cases, inl, inr}
use influxdb_operator.Effect.{M, Sys, Outcome, ok, call, throw, ◌>>=◌}
use influxdb_operator.Api.{NamespacedName, Organization, Config}
use influxdb_operator.Environment.{Environment, Secret, InfluxOrganization}
use influxdb_operator.Const.{reason_created_organization}
use influxdb_operator.Lifecycle.Conditions.{has_reason}
use influxdb_operator.Lifecycle.Handlers.{has_finalizer, mark_created}
use influxdb_operator.Lifecycle.Connect.{need_config, connect}
use influxdb_operator.Lifecycle.Server.{IsServer, Sees, Gives}
use influxdb_operator.Lifecycle.Configured.{connection_of, get_config-Gives, connect-Gives}
use influxdb_operator.Lifecycle.Rules.{
  check-ok, mark_created_settled, mark_created_first, mark_created_again, Recorded,
}
use influxdb_operator.Lifecycle.Sync.{IsSync}
use influxdb_operator.Lifecycle.Rest.{both, Recorded-Pending, repeat-IsDone, repeat-rests}
use influxdb_operator.Lifecycle.Rest
use influxdb_operator.Organization.{has_id, create, reconcile_resources}
use influxdb_operator.Organization.Server.{
  home_of, Remote, IsInflux, IsUsable, HasHome, find, has_organization,
}
use influxdb_operator.Organization.Steps.{
  admin, find-append, find-Gives, create-Gives_taken, create-Gives_new, grown,
}

home_found :
    (m : Option InfluxOrganization)
    → has_id m ≡ true
    → (home : InfluxOrganization) × (m ≡ some home) × (has_id (some home) ≡ true)
unfolding has_id
home_found none h = absurd (ground arith)
home_found (some home) h = (home, refl, h)

HasHome-append :
    (name : String) (os : List InfluxOrganization) (new : InfluxOrganization)
    → has_id (find name os) ≡ true
    → has_id (find name (os ++ new ∷ [])) ≡ true
unfolding has_id
HasHome-append name os new h = rw (find-append name os new) (ground arith)

has_organization-append :
    (name : String) (os : List InfluxOrganization) (new : InfluxOrganization)
    → (new.name == name) ≡ true
    → has_organization name (os ++ new ∷ []) ≡ true
has_organization-append name os new same = rw (find-append name os new) (ground arith)

module _ (E : Environment) (req config_name : NamespacedName)
    (S : IsServer E E.organizations req Remote) (I : IsInflux E req config_name S) where
  -- All that the controller needs for the Organization is there.
  abbrev pub Usable : Organization → Remote → Type 0
  Usable o r =
      (home_of o req ≡ config_name) × (c : Config) × (x : Secret) × IsUsable r c x × HasHome r c

  abbrev pub present : Organization → Remote → Bool
  present o r = has_organization o.name r.organizations

  abbrev finish : Organization → Bool → M E.World (Unit {0})
  finish o created =
      mark_created E E.organizations tt reason_created_organization "created influxdb organization"
        created tt o

  -- From the Config to the organization that it names: what follows is left.
  connected :
      (P : Outcome (Unit {0}) × Sys E.World → Type 0) (o : Organization) (r : Remote) (c : Config)
      (x : Secret) (s : Sys E.World)
      → Sees E E.organizations req S s (some o) r
      → home_of o req ≡ config_name
      → IsUsable r c x
      → HasHome r c
      → has_finalizer E o ≡ true
      → ((s' : Sys E.World)
          → Sees E E.organizations req S s' (some o) r
          → P ((create E o (connection_of c x) >>= finish o) s'))
      → P (reconcile_resources E o req s)
  unfolding reconcile_resources need_config
  connected P o r c x s h named u home found k =
      let (org, there, valid) = home_found (find c.spec.org_name r.organizations) home in
      rw (found, named)
        (check-ok E E.organizations req S P (call (E.get_config config_name)) throw _ s c (some o) r
          (get_config-Gives E E.organizations req S config_name (λ (y : Remote). y.config)
            (λ (y : Remote). y.secret) I.configured o r c x u.config s h)
          (λ s₁ h₁.
            check-ok E E.organizations req S P (connect E c) throw _ s₁ (connection_of c x) (some o)
              r
              (connect-Gives E E.organizations req S config_name (λ (y : Remote). y.config)
                (λ (y : Remote). y.secret) I.configured o r c x u.config s₁ h₁ u.secret)
              (λ s₂ h₂.
                check-ok E E.organizations req S P
                  (call (E.influx.find_organization_by_name (connection_of c x) c.spec.org_name))
                  throw _ s₂ (some org) (some o) r
                  (find-Gives E req config_name S I o r (connection_of c x) s₂ (admin c x u) h₂
                    c.spec.org_name org there)
                  (λ s₃ h₃. rw valid (k s₃ h₃)))))

  settled :
      (s : Sys E.World) (o : Organization) (r : Remote)
      → Sees E E.organizations req S s (some o) r
      → Usable o r
      → has_finalizer E o ≡ true
      → has_reason reason_created_organization o.status.conditions && present o r ≡ true
      → Gives E E.organizations req S (reconcile_resources E o req s) (ok tt) (some o) r
  settled s o r h (named, c, x, u, home) found ready =
      let (old, there) = both _ _ ready in
      connected (λ t. Gives E E.organizations req S t (ok tt) (some o) r) o r c x s h named u home
        found
        (λ s' h'.
          check-ok E E.organizations req S (λ t. Gives E E.organizations req S t (ok tt) (some o) r)
            (create E o (connection_of c x)) throw (finish o) s' false (some o) r
            (create-Gives_taken E req config_name S I o r (connection_of c x) s' (admin c x u) h'
              there)
            (λ s'' h''.
              mark_created_settled E E.organizations tt req S reason_created_organization
                "created influxdb organization" tt s'' o r h'' old))

  abbrev Pending : Organization → Outcome (Unit {0}) × Sys E.World → Type 0
  Pending = Rest.Pending E E.organizations tt req S reason_created_organization Usable present

  recorded :
      (o : Organization) (r : Remote) (s : Sys E.World)
      (h : Sees E E.organizations req S s (some o) r) (t : Outcome (Unit {0}) × Sys E.World)
      → Usable o r
      → present o r ≡ true
      → Recorded E E.organizations tt req S reason_created_organization
          "created influxdb organization" tt s o r h t
      → Pending o t
  recorded o r s h t usable there =
      Recorded-Pending E E.organizations tt req S reason_created_organization Usable present
        "created influxdb organization" tt s o r h t refl (λ st. usable) there

  pending :
      (s : Sys E.World) (o : Organization) (r : Remote)
      → Sees E E.organizations req S s (some o) r
      → Usable o r
      → has_finalizer E o ≡ true
      → has_reason reason_created_organization o.status.conditions && present o r ≡ false
      → Pending o (reconcile_resources E o req s)
  pending s o r h (named, c, x, u, home) found missing =
      connected (Pending o) o r c x s h named u home found (λ s' h'.
        elim (Bool-cases (present o r)) [
          | inl there ↦
              check-ok E E.organizations req S (Pending o) (create E o (connection_of c x)) throw
                (finish o) s' false (some o) r
                (create-Gives_taken E req config_name S I o r (connection_of c x) s' (admin c x u)
                  h' there)
                (λ s'' h''.
                  recorded o r s'' h'' (finish o false s'') (named, c, x, u, home) there
                    (mark_created_first E E.organizations tt req S reason_created_organization
                      "created influxdb organization" tt s'' o r h'' false (ground arith)))
          | inr free ↦
              let (new, g) =
                create-Gives_new E req config_name S I o r (connection_of c x) s' (admin c x u) h'
                  free in
              let r' =
                grown E req config_name S I o r (connection_of c x) s' (admin c x u) h' new in
              check-ok E E.organizations req S (Pending o) (create E o (connection_of c x)) throw
                (finish o) s' true (some o) r' g
                (λ s'' h''.
                  recorded o r' s'' h'' (finish o true s'')
                    (
                      named,
                      c,
                      x,
                      record { config = u.config; secret = u.secret; token = u.token },
                      HasHome-append c.spec.org_name r.organizations _ home,
                    )
                    (has_organization-append o.name r.organizations _ (eq_refl o.name))
                    (elim (Bool-cases
                      (has_reason reason_created_organization o.status.conditions)) [
                        | inl old ↦
                            mark_created_again E E.organizations tt req S
                              reason_created_organization "created influxdb organization" tt s'' o
                              r' h'' old
                        | inr fresh ↦
                            mark_created_first E E.organizations tt req S
                              reason_created_organization "created influxdb organization" tt s'' o
                              r' h'' true fresh
                      ]))
        ])

  pub organization-IsSync :
      IsSync E E.organizations req S
        (reconcile_resources E)
        reason_created_organization
        Usable
        present
  organization-IsSync = record {
    present_key = λ o p r k. ap (λ n. has_organization n r.organizations) k.name;
    usable_kept = λ o p r k e (named, c, x, u, home). (
      ap (λ spec. record { namespace = req.namespace; name = spec.config_name }) (sym e) ∙ named,
      c,
      x,
      u,
      home,
    );
    settled = settled;
    pending = pending;
  }
