-- ===== src/Lifecycle/Gone.antt =====
-- The beginning of `FinalizeResources` where it returns nil without an update: the Config is not found, or
-- the reads go through, each in the world that the one before left.
use influxdb_operator.Base.{◌≡◌, refl, ◌∙◌, ap, ◌⊎◌, inl, inr, true, Option, some}
use influxdb_operator.Base.{String, if◌then◌else◌, none}
use influxdb_operator.Errors.{message, object_updated}
use influxdb_operator.Effect.{ask, outcome, continue}
use influxdb_operator.Api.{Status}
use influxdb_operator.Const.{key_token}
use influxdb_operator.Lifecycle.Connect.{string_at}
use influxdb_operator.Lifecycle.Handlers.{deleted_status}
use mathlib.Core.Path.{subst}
use influxdb_operator.Errors.{ClientError, is_not_found}
use influxdb_operator.Effect.{M, Sys, ok, Outcome, Reply, reply, refuse, pure, throw, call, ◌>>=◌}
use influxdb_operator.Effect.Returns.{
  check_returns, bind_returns, bind_ok, call_replies, call_refuses, if_throw_returns,
}
use influxdb_operator.Api.{NamespacedName, Config, Object}
use influxdb_operator.Environment.{
  Environment, ObjectClient, Secret, Connection, InfluxOrganization,
}
use influxdb_operator.Lifecycle.Connect.{config_or_skip, connect, valid_id, need_valid_id}
use influxdb_operator.Lifecycle.Configured.{secret_of, connection_of}
use influxdb_operator.Lifecycle.Reads.{valid_id-IsValidId}
use influxdb_operator.Lifecycle.Handlers.{write_status, mark_deleted}

module _ (E : Environment) where
  -- The API server answers in the world `w` that the Config of the name is not found; or it answers the
  -- Config and then its Secret, and `Rest` holds of the Config, of the client that is made of the two
  -- and of the world after these reads.
  abbrev pub Without : NamespacedName → (Config → Connection → E.World → Type 0) → E.World → Type 0
  Without name Rest w =
      ((x : ClientError) × ((E.get_config name w).0 ≡ refuse x) × (x.not_found ≡ true))
      ⊎ ((c : Config) × (x : Secret) × ((E.get_config name w).0 ≡ reply c)
          × ((E.secrets.get (secret_of c) (E.get_config name w).1).0 ≡ reply x)
          × Rest c (connection_of c x) (E.secrets.get (secret_of c) (E.get_config name w).1).1)

  -- The client that is made, and the world after it.
  connect_returns :
      (c : Config) (s : Sys E.World) (k : Connection)
      → (connect E c s).0 ≡ ok k
      → (x : Secret) × ((E.secrets.get (secret_of c) s.world).0 ≡ reply x)
        × (k ≡ connection_of c x)
        × ((connect E c s).1 ≡ record s { world = (E.secrets.get (secret_of c) s.world).1 })
  unfolding connect connection_of
  connect_returns c s k h = go (E.secrets.get (secret_of c) s.world).0 h
    where
      made : Reply Secret → Outcome Connection × Sys E.World
      made r =
          continue (outcome r) throw
            (λ (x : Secret).
              pure (record { addr = c.spec.addr; token = string_at x.contents key_token }))
            (record s { world = (E.secrets.get (secret_of c) s.world).1 })

      go :
          (r : Reply Secret)
          → (made r).0 ≡ ok k
          → (x : Secret) × (r ≡ reply x)
            × (k ≡ connection_of c x)
            × ((made r).1 ≡ record s { world = (E.secrets.get (secret_of c) s.world).1 })
      go (reply x) h = (x, refl, cc, refl)
      go (refuse x) h = cc

  pub config_or_skip_returns :
      (name : NamespacedName) (body : Config → Connection → M E.World (Unit {0}))
      (Rest : Config → Connection → E.World → Type 0) (s : Sys E.World)
      → ((c : Config) (k : Connection) (t : Sys E.World)
          → (body c k t).0 ≡ ok tt
          → Rest c k t.world)
      → (config_or_skip E name (λ c. connect E c >>= body c) s).0 ≡ ok tt
      → Without name Rest s.world
  unfolding config_or_skip connect connection_of
  config_or_skip_returns name body Rest s go h =
      elim (check_returns (call (E.get_config name))
        (λ e. if is_not_found e then pure tt else throw e) (λ c. connect E c >>= body c) s tt h) [
          | inl (e, refused, skipped) ↦
              let (x, not_there, same) = call_refuses (E.get_config name) s e refused in
              let missing = if_throw_returns (is_not_found e) (pure tt) e _ tt skipped in
              inl (x, not_there, subst (λ d. is_not_found d ≡ true) same missing)
          | inr (c, found, rest) ↦
              let (k, connected, after) = bind_returns (connect E c) (body c) _ tt rest in
              let (x, got, made, left) = connect_returns c _ k connected in
              inr (
                c,
                x,
                call_replies (E.get_config name) s c found,
                got,
                subst (λ k. Rest c k (E.secrets.get (secret_of c) (E.get_config name s.world).1).1)
                    made (subst (λ t. Rest c k t.world) left (go c k _ after)),
              )
        ]

  -- `FindOrganizationByName` with the check of its answer.
  pub need_valid_id_returns :
      (organization : Option InfluxOrganization) (s : Sys E.World) (id : String)
      → (need_valid_id E organization s).0 ≡ ok id
      → (valid_id organization ≡ some id) × ((need_valid_id E organization s).1 ≡ s)
  unfolding need_valid_id
  need_valid_id_returns organization s id h = go (valid_id organization) h
    where
      given : Option String → Outcome String × Sys E.World
      given a =
          (elim a as (λ x. M E.World String) [
            | none ↦ throw (message "nil org pointer or invalid id")
            | some id ↦ pure id
          ])
            s

      go : (a : Option String) → (given a).0 ≡ ok id → (a ≡ some id) × ((given a).1 ≡ s)
      go none h = cc
      go (some id) h = (cc, refl)

  -- `FindOrganizationByName` with that check.
  pub find_organization_returns :
      (k : Connection) (name : String) (s : Sys E.World) (id : String)
      → ((call (E.influx.find_organization_by_name k name) >>= need_valid_id E) s).0 ≡ ok id
      → (org : InfluxOrganization) × ((E.influx.find_organization_by_name k name s.world).0
          ≡ reply (some org))
        × (org.id ≡ some id)
        × (((call (E.influx.find_organization_by_name k name) >>= need_valid_id E) s).1
            ≡ record s { world = (E.influx.find_organization_by_name k name s.world).1 })
  find_organization_returns k name s id h =
      let find = E.influx.find_organization_by_name k name in
      let (organization, found, needed) = bind_returns (call find) (need_valid_id E) s id h in
      let (valid, left) = need_valid_id_returns organization _ id needed in
      let (org, same, its_id, _) = valid_id-IsValidId organization id valid in
      (
        org,
        call_replies find s organization found ∙ ap reply same,
        its_id,
        ap (λ p. p.1) (bind_ok (call find) (need_valid_id E) s organization found) ∙ left,
      )

  module _ {Spec Data : Type 0} (client : ObjectClient E.World Spec Data) (no_data : Data) where
    write_status_fails :
        (o : Object Spec Data) (status : Status Data) (s : Sys E.World)
        → (write_status E client no_data o status s).0 ≡ ok tt
        → ⊥
    unfolding write_status
    write_status_fails o status s h =
        let (sent, _, thrown) =
          bind_returns (call (client.update_status (record o { status = status })))
            (λ (_ : Unit {0}). throw {A = Unit {0}} object_updated) s tt h in
        absurd cc

    -- The end of `FinalizeResources` never returns nil.
    pub mark_deleted_fails :
        (reason text : String) (o : Object Spec Data) (s : Sys E.World)
        → (mark_deleted E client no_data reason text o s).0 ≡ ok tt
        → ⊥
    unfolding mark_deleted
    mark_deleted_fails reason text o s h =
        let (time, _, written) =
          bind_returns (ask E.now)
            (λ time.
              write_status E client no_data o (deleted_status no_data reason text time o.status))
            s tt h in
        write_status_fails o (deleted_status no_data reason text time o.status) _ written
