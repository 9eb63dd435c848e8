-- ===== src/Organization/Gone.antt =====
-- `FinalizeResources` of the Organization controller where it returns nil: what made it skip the deletion.
use influxdb_operator.Base.{String, ◌≡◌, inl, inr, true, Option, if◌then◌else◌}
use mathlib.Core.Path.{subst}
use influxdb_operator.Effect.{M, Sys, ok, pure, throw, call, check, ◌>>=◌, ◌>>◌}
use influxdb_operator.Effect.Returns.{
  bind_returns, check_returns, call_refuses, if_true_returns, if_throw_returns,
}
use influxdb_operator.Api.{NamespacedName, Organization, Config}
use influxdb_operator.Environment.{Environment, Connection, InfluxOrganization}
use influxdb_operator.Const.{reason_deleted_organization}
use influxdb_operator.Lifecycle.Handlers.{has_finalizer, mark_deleted}
use influxdb_operator.Lifecycle.Connect.{connect, config_or_skip, need_valid_id, has_status}
use influxdb_operator.Lifecycle.Gone.{config_or_skip_returns, mark_deleted_fails}
use influxdb_operator.Organization.{config_of, delete_found, finalize_resources}
use influxdb_operator.Organization.Writes.{IsAbsent, IsGone}

delete_found_fails :
    (E : Environment) (o : Organization) (k : Connection) (a : Option InfluxOrganization)
    (s : Sys E.World)
    → (delete_found E o k a s).0 ≡ ok tt
    → ⊥
unfolding delete_found
delete_found_fails E o k a s h =
    let mark =
      mark_deleted E E.organizations tt reason_deleted_organization "deleted influxdb organization"
        o in
    let delete : String → M E.World (Unit {0}) =
      λ id. call (E.influx.delete_organization_with_id k id) >> mark in
    let (id, _, deleted) = bind_returns (need_valid_id E a) delete s tt h in
    let (_, _, marked) =
      bind_returns (call (E.influx.delete_organization_with_id k id)) (λ _. mark) _ tt deleted in
    mark_deleted_fails E E.organizations tt reason_deleted_organization
      "deleted influxdb organization" o _ marked

pub finalize_resources_returns :
    (E : Environment) (req : NamespacedName) (o : Organization) (s : Sys E.World)
    → has_finalizer E o ≡ true
    → (finalize_resources E o req s).0 ≡ ok tt
    → IsGone E req o s.world
unfolding finalize_resources
finalize_resources_returns E req o s held h =
    let find = λ (k : Connection). E.influx.find_organization_by_name k o.name in
    let body : Config → Connection → M E.World (Unit {0}) = λ c k.
      check (call (find k)) (λ e. if has_status 404 e then pure tt else throw e)
        (delete_found E o k) in
    config_or_skip_returns E (config_of o req) body (IsAbsent E o) s
      (λ c k t returned.
        elim (check_returns (call (find k)) (λ e. if has_status 404 e then pure tt else throw e)
          (delete_found E o k) t tt returned) [
            | inl (e, refused, skipped) ↦
                let (x, answered, same) = call_refuses (find k) t e refused in
                let missing = if_throw_returns (has_status 404 e) (pure tt) e _ tt skipped in
                (x, answered, subst (λ d. has_status 404 d ≡ true) same missing)
            | inr (a, _, deleted) ↦ absurd (delete_found_fails E o k a _ deleted)
          ])
      (if_true_returns (has_finalizer E o)
        (config_or_skip E (config_of o req) (λ c. connect E c >>= body c)) (pure tt) s tt held h)
