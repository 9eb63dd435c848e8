-- ===== src/Organization/Deletes.antt =====
-- An Organization that is marked for deletion, under healthy servers, and repeated calls of `Reconcile`.
use influxdb_operator.Base.{
  ℕ, ◌+◌, ◌<◌, ◌≤◌, String, ◌≡◌, ◌≢◌, refl, ◌∙◌, sym, ap, true, false, ◌==◌, some, List,
}
use influxdb_operator.Base.{if◌then◌else◌, arith}
use influxdb_operator.Errors.{object_updated, client}
use influxdb_operator.Effect.{Sys, Outcome, ok, err, call, throw, check, pure}
use influxdb_operator.Api.{NamespacedName, Organization, Config, Status}
use influxdb_operator.Environment.{Environment, Secret, InfluxOrganization}
use influxdb_operator.Const.{reason_deleted_organization, phase_terminating}
use influxdb_operator.Lifecycle.Handlers.{has_finalizer}
use influxdb_operator.Lifecycle.Connect.{config_or_skip, has_status, connect, valid_id}
use influxdb_operator.Lifecycle.Reconcile.{repeat}
use influxdb_operator.Lifecycle.Server.{IsServer, Sees, Gives}
use influxdb_operator.Lifecycle.Configured.{connection_of, get_config-Gives, connect-Gives}
use influxdb_operator.Lifecycle.Keyed.{ne_false}
use influxdb_operator.Lifecycle.Keyed
use influxdb_operator.Lifecycle.Rules.{check-ok, check-err, mark_deleted-Gives, need_valid_id_lem}
use influxdb_operator.Lifecycle.Cleanup.{IsCleanup}
use influxdb_operator.Lifecycle.Deletion.{released, enough_steps}
use influxdb_operator.Lifecycle.Release.{repeat-lets_go}
use influxdb_operator.Organization.{
  delete_found, finalize_resources, reconcile_resources, reconcile,
}
use influxdb_operator.Organization.Server.{
  home_of, Remote, IsInflux, IsUsable, count, others, id_of, is_named,
}
use influxdb_operator.Organization.Steps.{admin, find-Gives, find-Gives_missing, delete-Gives}

valid_id-some :
    (o : InfluxOrganization) (id : String) → o.id ≡ some id → id ≢ "" → valid_id (some o) ≡ some id
unfolding valid_id
valid_id-some o id e ne = ground (arith, ne_false id ne)

module _ (E : Environment) (req config_name : NamespacedName)
    (S : IsServer E E.organizations req Remote) (I : IsInflux E req config_name S) where
  -- The Config and its Secret are there, the organizations have ids, and the ones of other names are
  -- `rest`.
  abbrev IsClean : List InfluxOrganization → Organization → Remote → Type 0
  IsClean rest o r =
      (home_of o req ≡ config_name)
      × (c : Config) × (x : Secret) × IsUsable r c x
      × Keyed.IsKeyed id_of r.organizations
      × (others o.name r.organizations ≡ rest)

  abbrev amount : Organization → Remote → ℕ
  amount o r = count o.name r.organizations

  -- From the Config to the InfluxDB client: what follows is left.
  connected :
      (P : Outcome (Unit {0}) × Sys E.World → Type 0) (o : Organization) (r : Remote) (c : Config)
      (x : Secret) (s : Sys E.World)
      → Sees E E.organizations req S s (some o) r
      → home_of o req ≡ config_name
      → IsUsable r c x
      → has_finalizer E o ≡ true
      → ((s' : Sys E.World)
          → Sees E E.organizations req S s' (some o) r
          → P (
              check
                (call (E.influx.find_organization_by_name (connection_of c x) o.name))
                (λ e. if has_status 404 e then pure tt else throw e)
                (delete_found E o (connection_of c x))
                s'))
      → P (finalize_resources E o req s)
  unfolding finalize_resources config_or_skip
  connected P o r c x s h named u held k =
      rw (held, named)
        (check-ok E E.organizations req S P (call (E.get_config config_name)) _ _ s c (some o) r
          (get_config-Gives E E.organizations req S config_name (λ (y : Remote). y.config)
            (λ (y : Remote). y.secret) I.configured o r c x u.config s h)
          (λ s₁ h₁.
            check-ok E E.organizations req S P (connect E c) throw _ s₁ (connection_of c x) (some o)
              r
              (connect-Gives E E.organizations req S config_name (λ (y : Remote). y.config)
                (λ (y : Remote). y.secret) I.configured o r c x u.config s₁ h₁ u.secret)
              k))

  cleaned :
      (rest : List InfluxOrganization) (s : Sys E.World) (o : Organization) (r : Remote)
      → Sees E E.organizations req S s (some o) r
      → IsClean rest o r
      → has_finalizer E o ≡ true
      → amount o r ≡ 0
      → Gives E E.organizations req S (finalize_resources E o req s) (ok tt) (some o) r
  cleaned rest s o r h (named, c, x, u, keyed, kept) held none_left =
      connected (λ t. Gives E E.organizations req S t (ok tt) (some o) r) o r c x s h named u held
        (λ s' h'.
          let (e, status, g) =
            find-Gives_missing E req config_name S I o r (connection_of c x) s' (admin c x u) h'
              o.name (Keyed.find_missing id_of (is_named o.name) r.organizations none_left) in
          check-err E E.organizations req S
            (λ t. Gives E E.organizations req S t (ok tt) (some o) r)
            (call (E.influx.find_organization_by_name (connection_of c x) o.name)) _ _ s' (client e)
            (some o) r g (λ s'' h''. rw status (refl, h''.0, h''.1)))

  -- The outcome that `IsCleanup.deleting` asks for.
  abbrev Deleting :
      List InfluxOrganization → Organization → Remote → Outcome (Unit {0}) × Sys E.World → Type 0
  Deleting rest o r t =
      (st : Status (Unit {0})) × (r' : Remote) × (Gives E E.organizations req S t
        (err object_updated) (some (record o { status = st })) r')
      × IsClean rest (record o { status = st }) r'
      × (st.phase ≡ o.status.phase)
      × (amount o r' < amount o r)

  deleting :
      (rest : List InfluxOrganization) (s : Sys E.World) (o : Organization) (r : Remote)
      → Sees E E.organizations req S s (some o) r
      → IsClean rest o r
      → has_finalizer E o ≡ true
      → 0 < amount o r
      → Deleting rest o r (finalize_resources E o req s)
  unfolding delete_found
  deleting rest s o r h (named, c, x, u, keyed, kept) held left =
      let (org, old, finds, e, ne, there, less, same, keyed') =
        Keyed.find_found id_of (is_named o.name) r.organizations keyed left in
      let k = connection_of c x in
      let r' = record r { organizations = Keyed.without id_of old r.organizations } in
      let u' : IsUsable r' c x = record { config = u.config; secret = u.secret; token = u.token } in
      connected (Deleting rest o r) o r c x s h named u held (λ s' h'.
        check-ok E E.organizations req S (Deleting rest o r)
          (call (E.influx.find_organization_by_name k o.name)) _ _ s' (some org) (some o) r
          (find-Gives E req config_name S I o r k s' (admin c x u) h' o.name org finds)
          (λ s'' h''. rw (need_valid_id_lem E (some org) old s'' (valid_id-some org old e ne)) (
            check-ok E E.organizations req S (Deleting rest o r)
              (call (E.influx.delete_organization_with_id k old)) throw _ s'' tt (some o) r'
              (delete-Gives E req config_name S I o r k s'' (admin c x u) h'' old there)
              (λ s₃ h₃.
                let (st, phase, g) =
                  mark_deleted-Gives E E.organizations tt req S reason_deleted_organization
                    "deleted influxdb organization" s₃ o r' h₃ in
                (st, r', g, (named, c, x, u', keyed', same ∙ kept), phase, less)))))

  skipped :
      (s : Sys E.World) (o : Organization)
      → has_finalizer E o ≡ false
      → finalize_resources E o req s ≡ (ok tt, s)
  unfolding finalize_resources
  skipped s o free = rw free refl

  organization-IsCleanup :
      (rest : List InfluxOrganization)
      → IsCleanup E E.organizations req S (finalize_resources E) (IsClean rest) amount
  organization-IsCleanup rest = record {
    amount_key = λ o p r k. ap (λ n. count n r.organizations) k.name;
    usable_kept = λ o p r k e (named, c, x, u, keyed, kept). (
      ap (λ spec. record { namespace = req.namespace; name = spec.config_name }) (sym e) ∙ named,
      c,
      x,
      u,
      keyed,
      ap (λ n. others n r.organizations) (sym k.name) ∙ kept,
    );
    skipped = skipped;
    cleaned = cleaned rest;
    deleting = deleting rest;
  }

  -- For an Organization that is marked for deletion and holds the finalizer, in any phase: two calls of
  -- `Reconcile` and one more for each organization of its name in InfluxDB, or more calls, under
  -- healthy servers with its Config and the Secret with a token there and an id of its own for each
  -- organization, delete the organizations of its name and no other, and take the finalizer away. If
  -- there is no other finalizer, the Organization is gone.
  pub organization-lets_go :
      (n : ℕ) (s : Sys E.World) (o : Organization) (r : Remote) (t : ℕ) (c : Config) (x : Secret)
      → Sees E E.organizations req S s (some o) r
      → home_of o req ≡ config_name
      → IsUsable r c x
      → Keyed.IsKeyed id_of r.organizations
      → o.deletion_timestamp ≡ some t
      → has_finalizer E o ≡ true
      → 2 + count o.name r.organizations ≤ n
      → (st : Status (Unit {0})) × (r' : Remote) × Sees E E.organizations req S
          (repeat n (reconcile E req) s)
          (released E (record o { status = st }))
          r'
        × (r'.organizations ≡ others o.name r.organizations)
  unfolding reconcile
  organization-lets_go n s o r t c x h named u keyed marked held enough =
      let rest = others o.name r.organizations in
      let (st, r', h', (_, _, _, _, _, kept), none_left) =
        repeat-lets_go E E.organizations tt req S (finalize_resources E) (reconcile_resources E)
          (IsClean rest) amount (organization-IsCleanup rest) n s o r t h
          (named, c, x, u, keyed, refl) marked held
          (enough_steps (o.status.phase == phase_terminating) (count o.name r.organizations) n
            enough) in
      (st, r', h', sym (Keyed.others_lem id_of (is_named o.name) r'.organizations none_left) ∙ kept)
