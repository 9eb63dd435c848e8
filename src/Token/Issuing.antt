-- ===== src/Token/Issuing.antt =====
-- Obtaining the token and writing its Secret, in any world: what these ask for.
use influxdb_operator.Base.{
  ℕ, String, ◌≡◌, refl, inl, inr, Bool, true, false, ◌||◌, ◌<>◌, Option, none, some, List,
}
use influxdb_operator.Base.{if◌then◌else◌, Option-cases}
use influxdb_operator.Errors.{GoError, ClientError, message, client, is_already_exists}
use influxdb_operator.Effect.{M, reply, pure, throw, call, ask, deref, check, ◌>>=◌, ◌>>◌}
use influxdb_operator.Effect.Keeps.{
  Any, Replies-known, Invariants, Allows, Keeps, Keeps-pure, Keeps-throw, Keeps-deref, Keeps-ask,
  Keeps-ask_known, Keeps-call, Keeps-check, Keeps-bind, Keeps-if,
}
use influxdb_operator.Api.{NamespacedName, Token}
use influxdb_operator.Environment.{Environment, Connection, Authorization, NewAuthorization, Secret}
use influxdb_operator.Lifecycle.Connect.{log_daily, has_status}
use influxdb_operator.Lifecycle.Reconcile.{is_deleted}
use influxdb_operator.Lifecycle.Reads.{IsNonempty, Reads, log_daily-Keeps}
use influxdb_operator.Lifecycle.Permitted.{Permits}
use influxdb_operator.Journal.{
  object_client, token, create_secret, update_secret, Journaled, reading, journal,
}
use influxdb_operator.Journal.Trace.{
  trace, reading-Allows, writing-Allows, journal-Reads, journal-Permits,
}
use influxdb_operator.Token.Found.{AreListed, IsFound}
use influxdb_operator.Token.Writes.{kind, IsListed, IsFor, IsIssued, IsStep, IsLast}
use influxdb_operator.Token.Data.{
  description_of, to_permissions, Issued, new_secret, token_contents, is_stale,
}
use influxdb_operator.Token.Defs.{
  need_authorizations, use_existing, read_created, create_token, obtain, refresh_secret,
  write_secret,
}
use influxdb_operator.Token.Defs

module _ (E : Environment) (o : Token) (Gone : Type 0) where
  abbrev pub V : Invariants (Journaled E.World)
  V = trace (IsStep E o) (IsLast E Gone o)

  abbrev pub J : Environment
  J = journal E

  pub R : Reads J V
  R = journal-Reads (IsStep E o) (IsLast E Gone o) E

  pub P : Permits J (object_client token E.tokens) V kind Gone o
  P = journal-Permits (IsStep E o) (IsLast E Gone o) E E.tokens token kind Gone o (λ x h. h)

  abbrev pub Gives : Issued → Type 0
  Gives i = IsIssued E o i.token

  pub find_authorizations-Allows :
      (k : Connection) (id : String)
      → Allows V (AreListed E) (reading (E.influx.find_authorizations_by_org_id k id))
  find_authorizations-Allows k id =
      reading-Allows (IsStep E o) (IsLast E Gone o) (AreListed E)
        (E.influx.find_authorizations_by_org_id k id)
        (λ w.
          Replies-known (AreListed E) (E.influx.find_authorizations_by_org_id k id w).0 (known w))
    where
      known :
          (w : E.World) (a : Option (List Authorization))
          → (E.influx.find_authorizations_by_org_id k id w).0 ≡ reply a
          → AreListed E a
      known w listed e = (k, id, w, e)

  pub need_authorizations-Keeps :
      (listed : Option (List Authorization))
      → AreListed E listed
      → Keeps V (λ all. AreListed E (some all)) (need_authorizations J listed)
  unfolding need_authorizations
  need_authorizations-Keeps none h =
      Keeps-throw V (λ all. AreListed E (some all)) (message "recived nil authorizations")
  need_authorizations-Keeps (some all) h = Keeps-pure V (λ all. AreListed E (some all)) all h

  use_existing-Keeps : (a : Authorization) → IsListed E o a → Keeps V Gives (use_existing J o a)
  unfolding use_existing
  use_existing-Keeps a h =
      let logged : M (Journaled E.World) (Unit {0}) = log_daily J (o.uid <> "-" <> "token") in
      let missing = message "received nil id or token in authorization" in
      let failed : Keeps V Gives (logged >> throw missing) =
        Keeps-bind V Any Gives logged (λ _. throw missing) (log_daily-Keeps J V R _)
          (λ _ _. Keeps-throw V Gives missing) in
      elim (Option-cases a.id) [
        | inl none_id ↦ rw (none_id, use_existing) failed
        | inr (id, e) ↦
            rw (e, use_existing)
              (elim (Option-cases a.token) [
                | inl none_token ↦ rw none_token failed
                | inr (t, et) ↦ rw et (
                    Keeps-bind V Any Gives logged
                      (λ _.
                        pure (record { token_id = id; token = t; exists = true; created = false }))
                      (log_daily-Keeps J V R _) (λ _ _ s inv. (inv, inl (a, h, et))))
              ])
      ]

  read_created-Keeps :
      (created : Bool) (a : Option Authorization)
      → ((b : Authorization) (t : String) → a ≡ some b → b.token ≡ some t → IsIssued E o t)
      → Keeps V Gives (read_created J created a)
  unfolding read_created
  read_created-Keeps created a h =
      let issue : String → String → Issued =
        λ id t. record { token_id = id; token = t; exists = false; created = created } in
      Keeps-bind V (λ b. a ≡ some b) Gives (deref a)
        (λ b. do id ← deref b.id; t ← deref b.token; pure (issue id t))
        (Keeps-deref V (λ b. a ≡ some b) a (λ b e. e))
        (λ b eb.
          Keeps-bind V Any Gives (deref b.id) (λ id. deref b.token >>= λ t. pure (issue id t))
            (Keeps-deref V Any b.id (λ _ _. tt))
            (λ id _.
              Keeps-bind V (λ t. b.token ≡ some t) Gives (deref b.token) (λ t. pure (issue id t))
                (Keeps-deref V (λ t. b.token ≡ some t) b.token (λ t e. e))
                (λ t et. Keeps-pure V Gives (issue id t) (h b t eb et))))

  create_token-Keeps :
      is_deleted o ≡ false
      → (k : Connection) (org_name id : String) → IsNonempty id
      → Keeps V Gives (create_token J o k org_name id)
  unfolding create_token
  create_token-Keeps live k org_name id ne =
      let new : NewAuthorization = record {
        description = description_of o;
        org_id = some id;
        permissions = to_permissions org_name id o.spec.permissions;
      } in
      let for : IsFor o new = (refl, (org_name, id, refl, ne, refl)) in
      let Q : Option Authorization × Option ClientError → Type 0 =
        λ r. (b : Authorization) (t : String) → r.0 ≡ some b → b.token ≡ some t → IsIssued E o t in
      let logged : M (Journaled E.World) (Unit {0}) = log_daily J (o.uid <> "-" <> "token") in
      let answered : Option Authorization × Option ClientError → M (Journaled E.World) Issued = λ r.
        elim r.1 [
          | none ↦ read_created J true r.0
          | some e ↦
              if has_status 422 (client e)
              then (do logged; read_created J false r.0)
              else throw (client e)
        ] in
      Keeps-bind V Q Gives (ask (J.influx.create_authorization k new)) answered
        (Keeps-ask_known V Q (J.influx.create_authorization k new)
          (λ j inv. (((live, for), inv), λ b t e et. inr (k, new, j.world, b, for, e, et))))
        (λ r q. elim (Option-cases r.1) [
          | inl accepted ↦ rw accepted (read_created-Keeps true r.0 q)
          | inr (e, refused) ↦ rw refused (
              Keeps-if V Gives (has_status 422 (client e)) _ (throw (client e))
                (λ _.
                  Keeps-bind V Any Gives logged (λ _. read_created J false r.0)
                    (log_daily-Keeps J V R _) (λ _ _. read_created-Keeps false r.0 q))
                (λ _. Keeps-throw V Gives (client e)))
        ])

  pub obtain-Keeps :
      is_deleted o ≡ false
      → (k : Connection) (org_name id : String) → IsNonempty id
      → (a : Option Authorization) → IsFound E o a
      → Keeps V Gives (obtain J o k org_name id a)
  unfolding obtain
  obtain-Keeps live k org_name id ne none h = create_token-Keeps live k org_name id ne
  obtain-Keeps live k org_name id ne (some a) h = use_existing-Keeps a h

  create_secret-Keeps :
      is_deleted o ≡ false → (t : String) → IsIssued E o t → Keeps V Any (Defs.create_secret J o t)
  unfolding Defs.create_secret
  create_secret-Keeps live t issued =
      let made : ℕ → Secret = λ time. record (new_secret o t) { creation_timestamp = time } in
      let taken : GoError → M (Journaled E.World) Bool = λ e.
        if is_already_exists e
        then (do log_daily J (o.uid <> "-" <> "secret"); pure true)
        else throw e in
      Keeps-bind V Any Any (ask J.now)
        (λ time. check (call (J.secrets.create (made time))) taken (λ _. pure false))
        (Keeps-ask V J.now R.now)
        (λ time _.
          Keeps-check V Any Any (J.secrets.create (made time)) taken (λ _. pure false)
            (writing-Allows (IsStep E o) (IsLast E Gone o) (create_secret (made time))
              (E.secrets.create (made time)) (live, (t, time, issued, refl)))
            (λ e.
              Keeps-if V Any (is_already_exists e) _ (throw e)
                (λ _.
                  Keeps-bind V Any Any (log_daily J (o.uid <> "-" <> "secret")) (λ _. pure true)
                    (log_daily-Keeps J V R _) (λ _ _. Keeps-pure V Any true tt))
                (λ _. Keeps-throw V {A = Bool} Any e))
            (λ _ _. Keeps-pure V Any false tt))

  refresh_secret-Keeps :
      is_deleted o ≡ false → (t : String) → IsIssued E o t → Keeps V Any (refresh_secret J o t)
  unfolding refresh_secret
  refresh_secret-Keeps live t issued =
      let n : NamespacedName = record { namespace = o.namespace; name = o.spec.secret_name } in
      let Q : Secret → Type 0 = λ old. (w : E.World) × ((E.secrets.get n w).0 ≡ reply old) in
      let changed : Secret → Secret = λ old. record old { contents = token_contents t } in
      Keeps-bind V Q Any (call (J.secrets.get n))
        (λ old. if is_stale t old then call (J.secrets.update (changed old)) else pure tt)
        (Keeps-call V Q _ (
          reading-Allows (IsStep E o) (IsLast E Gone o) Q (E.secrets.get n)
            (λ w. Replies-known Q (E.secrets.get n w).0 (λ old e. (w, e)))))
        (λ old (w, e).
          Keeps-if V Any (is_stale t old) (call (J.secrets.update (changed old))) (pure tt)
            (λ _. Keeps-call V Any _ (
              writing-Allows (IsStep E o) (IsLast E Gone o) (update_secret (changed old))
                (E.secrets.update (changed old)) (live, (t, w, old, issued, e, refl))))
            (λ _. Keeps-pure V Any tt tt))

  pub write_secret-Keeps :
      is_deleted o ≡ false → (i : Issued) → Gives i → Keeps V Any (write_secret J o i)
  unfolding write_secret
  write_secret-Keeps live i issued =
      Keeps-if V Any (i.exists || i.created) _ (pure tt)
        (λ _.
          Keeps-bind V Any Any (Defs.create_secret J o i.token)
            (λ existed. if existed then refresh_secret J o i.token else pure tt)
            (create_secret-Keeps live i.token issued)
            (λ existed _.
              Keeps-if V Any existed (refresh_secret J o i.token) (pure tt)
                (λ _. refresh_secret-Keeps live i.token issued) (λ _. Keeps-pure V Any tt tt)))
        (λ _. Keeps-pure V Any tt tt)
