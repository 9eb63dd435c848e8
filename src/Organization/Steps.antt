-- ===== src/Organization/Steps.antt =====
-- The calls of the Organization controller under healthy servers, one by one.
use influxdb_operator.Base.{
  String, ◌≡◌, refl, ◌∙◌, ap, true, false, ◌==◌, ◌<>◌, none, some, List, [], ◌∷◌, ◌++◌,
}
use influxdb_operator.Base.{if◌then◌else◌, arith}
use influxdb_operator.Errors.{client, ClientError}
use influxdb_operator.Effect.{Sys, ok, err, reply, refuse, call, throw}
use influxdb_operator.Api.{Config, NamespacedName, Organization}
use influxdb_operator.Environment.{Environment, Secret, Connection, InfluxOrganization}
use influxdb_operator.Lifecycle.Connect.{has_status, log_daily}
use influxdb_operator.Lifecycle.Server.{IsServer, Sees, Gives}
use influxdb_operator.Lifecycle.Keyed
use influxdb_operator.Lifecycle.Configured.{IsAdmin, connection_of, connection_of-IsAdmin}
use influxdb_operator.Lifecycle.Rules.{check-ok, check-err, call-Gives, log_daily-Gives}
use influxdb_operator.Organization.{create}
use influxdb_operator.Organization.Server.{
  IsUsable, Remote, IsInflux, find, has_organization, id_of,
}

-- Creating an organization keeps the ones that are found.
pub find-append :
    (name : String) (os : List InfluxOrganization) (new : InfluxOrganization)
    → find name (os ++ new ∷ [])
      ≡ elim (find name os) [ some o ↦ some o | none ↦ if new.name == name then some new else none ]
unfolding Keyed.find
find-append name [] new = ground arith
find-append name (o ∷ os) new = ground (arith, find-append name os new)

pub admin :
    {r : Remote} (c : Config) (x : Secret)
    → IsUsable r c x
    → IsAdmin r.config r.secret (connection_of c x)
admin c x u = connection_of-IsAdmin c x u.config u.secret u.token

module _ (E : Environment) (req config_name : NamespacedName)
    (S : IsServer E E.organizations req Remote) (I : IsInflux E req config_name S)
    (o : Organization) (r : Remote) (k : Connection) (s : Sys E.World)
    (client_admin : IsAdmin r.config r.secret k)
    (h : Sees E E.organizations req S s (some o) r) where
  pub find-Gives :
      (name : String) (found : InfluxOrganization)
      → find name r.organizations ≡ some found
      → Gives E E.organizations req S
          (call (E.influx.find_organization_by_name k name) s)
          (ok (some found))
          (some o)
          r
  find-Gives name found there =
      let (eo, er) = h in
      call-Gives E E.organizations req S (E.influx.find_organization_by_name k name) s
        (reply (some found)) (some o) r
        (I.find_found k name found (rw er client_admin) (rw er there))
        (I.object-find s.world k name ∙ eo) (I.remote-find s.world k name ∙ er)

  pub find-Gives_missing :
      (name : String)
      → find name r.organizations ≡ none
      → (e : ClientError) × (has_status 404 (client e) ≡ true)
        × Gives E E.organizations req S
            (call (E.influx.find_organization_by_name k name) s)
            (err (client e))
            (some o)
            r
  find-Gives_missing name missing =
      let (eo, er) = h in
      let (e, refused, status) =
        I.find_missing {w = s.world} k name (rw er client_admin) (rw er missing) in
      (
        e,
        status,
        call-Gives E E.organizations req S (E.influx.find_organization_by_name k name) s (refuse e)
            (some o) r refused (I.object-find s.world k name ∙ eo)
            (I.remote-find s.world k name ∙ er),
      )

  -- The organization is there already: nothing is created, and that is no error.
  pub create-Gives_taken :
      has_organization o.name r.organizations ≡ true
      → Gives E E.organizations req S (create E o k s) (ok false) (some o) r
  unfolding create
  create-Gives_taken taken =
      let (eo, er) = h in
      let (e, refused, status, same) =
        I.create_taken s.world k o.name (rw er client_admin) (rw er taken) in
      check-err E E.organizations req S (λ t. Gives E E.organizations req S t (ok false) (some o) r)
        (call (E.influx.create_organization k o.name)) _ _ s (client e) (some o) r
        (call-Gives E E.organizations req S (E.influx.create_organization k o.name) s (refuse e)
          (some o) r refused (I.object-create s.world k o.name ∙ eo) (same ∙ er))
        (λ s' h'. rw status (
          check-ok E E.organizations req S
            (λ t. Gives E E.organizations req S t (ok false) (some o) r)
            (log_daily E (o.uid <> "-" <> "org")) throw _ s' tt (some o) r
            (log_daily-Gives E E.organizations req S _ s' (some o) r h')
            (λ s'' h''. (refl, h''.0, h''.1))))

  abbrev pub grown : String → Remote
  grown new = record r {
    organizations = r.organizations ++ record { id = some new; name = o.name } ∷ [];
  }

  -- The organization is not there: it is created.
  pub create-Gives_new :
      has_organization o.name r.organizations ≡ false
      → (new : String) × Gives E E.organizations req S
          (create E o k s)
          (ok true)
          (some o)
          (grown new)
  unfolding create
  create-Gives_new free =
      let (eo, er) = h in
      let (new, accepted, more) = I.create_new s.world k o.name (rw er client_admin) (rw er free) in
      (
        new,
        check-ok E E.organizations req S
            (λ t. Gives E E.organizations req S t (ok true) (some o) (grown new))
            (call (E.influx.create_organization k o.name)) _ _ s tt (some o) (grown new)
            (call-Gives E E.organizations req S (E.influx.create_organization k o.name) s (reply tt)
              (some o) (grown new) accepted (I.object-create s.world k o.name ∙ eo)
              (more
                ∙ ap
                    (λ (y : Remote). record y {
                      organizations =
                          y.organizations ++ record { id = some new; name = o.name } ∷ [];
                    })
                    er))
            (λ s' h'. (refl, h'.0, h'.1)),
      )

  pub delete-Gives :
      (old : String)
      → Keyed.has_id id_of old r.organizations ≡ true
      → Gives E E.organizations req S
          (call (E.influx.delete_organization_with_id k old) s)
          (ok tt)
          (some o)
          (record r { organizations = Keyed.without id_of old r.organizations })
  delete-Gives old there =
      let (eo, er) = h in
      call-Gives E E.organizations req S (E.influx.delete_organization_with_id k old) s (reply tt)
        (some o) (record r { organizations = Keyed.without id_of old r.organizations })
        (I.delete_accepted s.world k old (rw er client_admin) (rw er there))
        (I.object-delete s.world k old ∙ eo)
        (I.remote-delete s.world k old (rw er client_admin) (rw er there)
          ∙ ap
              (λ (y : Remote). record y { organizations = Keyed.without id_of old y.organizations })
              er)
