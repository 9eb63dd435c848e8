-- ===== src/Token/Gone.antt =====
-- `FinalizeResources` of the Token controller where it returns nil: what made it skip the deletion.
use influxdb_operator.Base.{String, ◌≡◌, ◌∙◌, refl, ap, inl, inr, true, Option, none, some, List}
use influxdb_operator.Base.{if◌then◌else◌}
use mathlib.Core.Path.{subst}
use influxdb_operator.Effect.{M, Sys, ok, reply, pure, throw, call, deref, check, ◌>>=◌, ◌>>◌}
use influxdb_operator.Effect.Returns.{
  bind_returns, check_returns, call_replies, call_refuses, if_true_returns, if_throw_returns,
}
use influxdb_operator.Api.{NamespacedName, Token, Config}
use influxdb_operator.Environment.{Environment, Connection, InfluxOrganization, Authorization}
use influxdb_operator.Const.{reason_deleted_token}
use influxdb_operator.Lifecycle.Handlers.{has_finalizer, mark_deleted}
use influxdb_operator.Lifecycle.Connect.{connect, config_or_skip, need_valid_id, has_status}
use influxdb_operator.Lifecycle.Reads.{valid_id-IsValidId}
use influxdb_operator.Lifecycle.Gone.{
  config_or_skip_returns, need_valid_id_returns, mark_deleted_fails,
}
use influxdb_operator.Token.Data.{config_of, description_of, find_authorization}
use influxdb_operator.Token.Defs.{delete_authorization, need_authorizations, finalize_resources}
use influxdb_operator.Token.Found.{find_authorization-lacks}
use influxdb_operator.Token.Writes.{IsAbsent, IsGone}

module _ (E : Environment) (o : Token) (k : Connection) where
  delete_authorization_returns :
      (a : Option Authorization) (s : Sys E.World)
      → (delete_authorization E o k a s).0 ≡ ok tt
      → a ≡ none
  unfolding delete_authorization
  delete_authorization_returns none s h = refl
  delete_authorization_returns (some a) s h =
      let mark = mark_deleted E E.tokens none reason_deleted_token "deleted influxdb token" o in
      let delete : String → M E.World (Unit {0}) =
        λ id. call (E.influx.delete_authorization_with_id k id) >> mark in
      let (id, _, deleted) = bind_returns (deref a.id) delete s tt h in
      let (_, _, marked) =
        bind_returns (call (E.influx.delete_authorization_with_id k id)) (λ _. mark) _ tt deleted in
      absurd (
        mark_deleted_fails E E.tokens none reason_deleted_token "deleted influxdb token" o _ marked)

  need_authorizations_returns :
      (listed : Option (List Authorization)) (s : Sys E.World) (all : List Authorization)
      → (need_authorizations E listed s).0 ≡ ok all
      → listed ≡ some all
  unfolding need_authorizations
  need_authorizations_returns none s all h = cc
  need_authorizations_returns (some listed) s all h = cc

  -- What follows `FindOrganizationByName` without an error.
  abbrev search_in : String → M E.World (Unit {0})
  search_in id = do
    listed ← call (E.influx.find_authorizations_by_org_id k id)
    all ← need_authorizations E listed
    delete_authorization E o k (find_authorization (description_of o) all)

  abbrev search : Option InfluxOrganization → M E.World (Unit {0})
  search organization = need_valid_id E organization >>= search_in

  search_returns :
      (c : Config) (organization : Option InfluxOrganization) (t : Sys E.World)
      → (call (E.influx.find_organization_by_name k c.spec.org_name) t).0 ≡ ok organization
      → (search organization (call (E.influx.find_organization_by_name k c.spec.org_name) t).1).0
        ≡ ok tt
      → IsAbsent E o c k t.world
  search_returns c organization t found h =
      let find = E.influx.find_organization_by_name k c.spec.org_name in
      let u = (call find t).1 in
      let (id, needed, after) = bind_returns (need_valid_id E organization) search_in u tt h in
      let (valid, left) = need_valid_id_returns E organization u id needed in
      let (org, same, its_id, _) = valid_id-IsValidId organization id valid in
      let find_authorizations = E.influx.find_authorizations_by_org_id k id in
      let v = (need_valid_id E organization u).1 in
      let delete : List Authorization → M E.World (Unit {0}) =
        λ all. delete_authorization E o k (find_authorization (description_of o) all) in
      let (listed, got, rest) =
        bind_returns (call find_authorizations) (λ listed. need_authorizations E listed >>= delete)
          v tt after in
      let (all, given, deleted) = bind_returns (need_authorizations E listed) delete _ tt rest in
      let whole = need_authorizations_returns listed _ all given in
      let none_found = delete_authorization_returns _ _ deleted in
      inr (
        org,
        id,
        all,
        call_replies find t organization found ∙ ap reply same,
        its_id,
        subst (λ w. (find_authorizations w.world).0 ≡ reply (some all)) left
            (call_replies find_authorizations v listed got ∙ ap reply whole),
        λ a m. find_authorization-lacks (description_of o) all a none_found m,
      )

pub finalize_resources_returns :
    (E : Environment) (req : NamespacedName) (o : Token) (s : Sys E.World)
    → has_finalizer E o ≡ true
    → (finalize_resources E o req s).0 ≡ ok tt
    → IsGone E req o s.world
unfolding finalize_resources
finalize_resources_returns E req o s held h =
    let find =
      λ (c : Config) (k : Connection). E.influx.find_organization_by_name k c.spec.org_name in
    let body : Config → Connection → M E.World (Unit {0}) = λ c k.
      check (call (find c k)) (λ e. if has_status 404 e then pure tt else throw e) (search E o k) in
    config_or_skip_returns E (config_of o req) body (IsAbsent E o) s
      (λ c k t returned.
        elim (check_returns (call (find c k)) (λ e. if has_status 404 e then pure tt else throw e)
          (search E o k) t tt returned) [
            | inl (e, refused, skipped) ↦
                let (x, answered, same) = call_refuses (find c k) t e refused in
                let missing = if_throw_returns (has_status 404 e) (pure tt) e _ tt skipped in
                inl (x, answered, subst (λ d. has_status 404 d ≡ true) same missing)
            | inr (organization, found, searched) ↦
                search_returns E o k c organization t found searched
          ])
      (if_true_returns (has_finalizer E o)
        (config_or_skip E (config_of o req) (λ c. connect E c >>= body c)) (pure tt) s tt held h)
