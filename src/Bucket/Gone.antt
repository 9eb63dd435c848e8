-- ===== src/Bucket/Gone.antt =====
-- `FinalizeResources` of the Bucket controller where it returns nil: what made it skip the deletion.
use influxdb_operator.Base.{
  String, ◌≡◌, refl, inl, inr, true, ◌==◌, Option, none, some, List, [], ◌∷◌,
}
use influxdb_operator.Base.{eq_iff, Bool-cases, if◌then◌else◌}
use mathlib.Core.Path.{subst}
use mathlib.Core.List.{Memᴰ}
use influxdb_operator.Effect.{M, Sys, ok, reply, pure, call, deref, ◌>>=◌, ◌>>◌}
use influxdb_operator.Effect.Returns.{
  bind_returns, call_replies, deref_returns, if_true_returns, if_false_returns,
}
use influxdb_operator.Api.{NamespacedName, Bucket, Config}
use influxdb_operator.Environment.{Environment, Connection, InfluxBucket}
use influxdb_operator.Const.{reason_deleted_bucket}
use influxdb_operator.Lifecycle.Handlers.{has_finalizer, mark_deleted}
use influxdb_operator.Lifecycle.Connect.{connect, config_or_skip}
use influxdb_operator.Lifecycle.Gone.{
  config_or_skip_returns, find_organization_returns, mark_deleted_fails,
}
use influxdb_operator.Bucket.Defs.{
  config_of, find_id, find_org_id, delete_found, finalize_resources,
}
use influxdb_operator.Bucket.Found.{IsFound, IsFound-later, IsFound-IsUnlisted}
use influxdb_operator.Bucket.Writes.{IsUnlisted, IsAbsent, IsGone}

find_id_returns :
    {W : Type 0} (name : String) (bs : List InfluxBucket) (s : Sys W) (id : String)
    → (find_id name bs s).0 ≡ ok id
    → IsFound name bs id
unfolding find_id
find_id_returns name [] s id h = inl (cc, inl λ b m. elim m [ ])
find_id_returns name (b ∷ bs) s id h = elim (Bool-cases (b.name == name)) [
  | inl same ↦
      let read = if_true_returns (b.name == name) (deref b.id) (find_id name bs) s id same h in
      inr (b, Memᴰ.head refl, (eq_iff b.name name).0 same, deref_returns b.id s id read)
  | inr other ↦
      let later = if_false_returns (b.name == name) (deref b.id) (find_id name bs) s id other h in
      IsFound-later name b bs id other (find_id_returns name bs s id later)
]

module _ (E : Environment) (o : Bucket) (k : Connection) where
  delete_found_returns :
      (listed : Option (List InfluxBucket)) (s : Sys E.World)
      → (delete_found E o k listed s).0 ≡ ok tt
      → IsUnlisted o.name listed
  unfolding delete_found
  delete_found_returns none s h = tt
  delete_found_returns (some bs) s h =
      let mark = mark_deleted E E.buckets tt reason_deleted_bucket "deleted influxdb bucket" o in
      let delete : String → M E.World (Unit {0}) =
        λ id. call (E.influx.delete_bucket_with_id k id) >> mark in
      let (id, searched, rest) =
        bind_returns (find_id o.name bs) (λ id. if id == "" then pure tt else delete id) s tt h in
      let found = find_id_returns o.name bs s id searched in
      elim (Bool-cases (id == "")) [
        | inl empty ↦ IsFound-IsUnlisted o.name bs id found ((eq_iff id "").0 empty)
        | inr filled ↦
            let deleted = if_false_returns (id == "") (pure tt) (delete id) _ tt filled rest in
            let (_, _, marked) =
              bind_returns (call (E.influx.delete_bucket_with_id k id)) (λ _. mark) _ tt deleted in
            absurd (
              mark_deleted_fails E E.buckets tt reason_deleted_bucket "deleted influxdb bucket" o _
                marked)
      ]

pub finalize_resources_returns :
    (E : Environment) (req : NamespacedName) (o : Bucket) (s : Sys E.World)
    → has_finalizer E o ≡ true
    → (finalize_resources E o req s).0 ≡ ok tt
    → IsGone E req o s.world
unfolding finalize_resources find_org_id
finalize_resources_returns E req o s held h =
    let list : Connection → String → M E.World (Unit {0}) =
      λ k id. call (E.influx.find_buckets_by_org_id k id) >>= delete_found E o k in
    let body : Config → Connection → M E.World (Unit {0}) = λ c k. find_org_id E k c >>= list k in
    config_or_skip_returns E (config_of req) body (IsAbsent E o) s
      (λ c k t returned.
        let (id, ided, after) = bind_returns (find_org_id E k c) (list k) t tt returned in
        let (org, answered, its_id, left) =
          find_organization_returns E k c.spec.org_name t id ided in
        let find_buckets = E.influx.find_buckets_by_org_id k id in
        let (listed, got, rest) =
          bind_returns (call find_buckets) (delete_found E o k) (find_org_id E k c t).1 tt after in
        (
          org,
          id,
          listed,
          answered,
          its_id,
          subst (λ u. (find_buckets u.world).0 ≡ reply listed) left
              (call_replies find_buckets (find_org_id E k c t).1 listed got),
          delete_found_returns E o k listed _ rest,
        ))
      (if_true_returns (has_finalizer E o)
        (config_or_skip E (config_of req) (λ c. connect E c >>= body c)) (pure tt) s tt held h)
