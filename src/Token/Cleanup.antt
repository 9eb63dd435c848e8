-- ===== src/Token/Cleanup.antt =====
-- `FinalizeResources` of a Token under healthy servers: each call deletes one of the authorizations with
-- its description.
use influxdb_operator.Base.{
  ℕ, String, ◌<◌, ◌≡◌, refl, ◌∙◌, sym, ap, true, false, ◌==◌, Option, none, some, List, [], ◌∷◌,
  All,
}
use influxdb_operator.Base.{arith, Bool-cases, inl, inr}
use influxdb_operator.Base.Dict.{Dict}
use influxdb_operator.Errors.{object_updated}
use influxdb_operator.Effect.{Sys, Outcome, ok, err, reply, call, throw}
use influxdb_operator.Api.{NamespacedName, Token, Config, Status}
use influxdb_operator.Environment.{
  Environment, Connection, Secret, InfluxOrganization, Authorization,
}
use influxdb_operator.Const.{reason_deleted_token}
use influxdb_operator.Lifecycle.Handlers.{has_finalizer}
use influxdb_operator.Lifecycle.Connect.{config_or_skip, connect}
use influxdb_operator.Lifecycle.Server.{IsServer, SameKey, Sees, Gives}
use influxdb_operator.Lifecycle.Configured.{
  IsAdmin, connection_of-IsAdmin, connection_of, get_config-Gives, connect-Gives,
}
use influxdb_operator.Lifecycle.Keyed.{without_same, without_apart}
use influxdb_operator.Lifecycle.Keyed
use influxdb_operator.Lifecycle.Rules.{check-ok, call-Gives, mark_deleted-Gives, need_valid_id_lem}
use influxdb_operator.Lifecycle.Cleanup.{IsCleanup}
use influxdb_operator.Token.Data.{find_authorization, is_described, description_of}
use influxdb_operator.Token.Defs.{delete_authorization, need_authorizations, finalize_resources}
use influxdb_operator.Token.Server.{home_of, Remote, IsInflux, IsUsable, Usable, IsComplete, id_of}
use influxdb_operator.Token.Obtain.{find_organization-Gives, find_authorizations-Gives}
use influxdb_operator.Token.Present.{usable_kept_lem}

-- The authorizations that have another description, and how many have it.
abbrev pub others : Token → List Authorization → List Authorization
others o = Keyed.others id_of (is_described (description_of o))

abbrev pub count : Token → List Authorization → ℕ
count o = Keyed.count id_of (is_described (description_of o))

find_authorization_lem :
    (d : String) (xs : List Authorization)
    → find_authorization d xs ≡ Keyed.find id_of (is_described d) xs
unfolding find_authorization Keyed.find
find_authorization_lem d [] = refl
find_authorization_lem d (a ∷ xs) = ground (arith, find_authorization_lem d xs)

All-without :
    (id : String) (xs : List Authorization)
    → All IsComplete xs
    → All IsComplete (Keyed.without id_of id xs)
unfolding Keyed.without
All-without id [] h = tt
All-without id (a ∷ xs) ((i, token, e, et), h) = elim (Bool-cases (i == id)) [
  | inl same ↦ rw (without_same id_of id i a xs e same) (All-without id xs h)
  | inr apart ↦ rw (without_apart id_of id i a xs e apart) ((i, token, e, et), All-without id xs h)
]

module _ (E : Environment) (req config_name secret_name : NamespacedName)
    (S : IsServer E E.tokens req Remote) (I : IsInflux E req config_name secret_name S) where
  -- All that the controller needs is there, each authorization has an id of its own, and the ones with
  -- other descriptions are `rest`.
  abbrev pub IsClean : List Authorization → Token → Remote → Type 0
  IsClean rest o r =
      Usable E req config_name secret_name o r
      × Keyed.IsKeyed id_of r.authorizations
      × (others o r.authorizations ≡ rest)

  abbrev pub amount : Token → Remote → ℕ
  amount o r = count o r.authorizations

  -- From the Config to the list of authorizations: what follows is left.
  listed :
      (P : Outcome (Unit {0}) × Sys E.World → Type 0) (o : Token) (r : Remote) (c : Config)
      (x : Secret) (org : InfluxOrganization) (id : String) (u : IsUsable secret_name r c x org id)
      (s : Sys E.World)
      → Sees E E.tokens req S s (some o) r
      → home_of o req ≡ config_name
      → has_finalizer E o ≡ true
      → ((s' : Sys E.World)
          → Sees E E.tokens req S s' (some o) r
          → P (
              delete_authorization E o
                (connection_of c x)
                (Keyed.find id_of (is_described (description_of o)) r.authorizations)
                s'))
      → P (finalize_resources E o req s)
  unfolding finalize_resources config_or_skip need_authorizations
  listed P o r c x org id u s h named held k =
      rw (held, named)
        (check-ok E E.tokens req S P (call (E.get_config config_name)) _ _ s c (some o) r
          (get_config-Gives E E.tokens req S config_name (λ (y : Remote). y.config)
            (λ (y : Remote). y.secret) I.configured o r c x u.config s h)
          (λ s₁ h₁.
            check-ok E E.tokens req S P (connect E c) throw _ s₁ (connection_of c x) (some o) r
              (connect-Gives E E.tokens req S config_name (λ (y : Remote). y.config)
                (λ (y : Remote). y.secret) I.configured o r c x u.config s₁ h₁ u.secret)
              (λ s₂ h₂.
                check-ok E E.tokens req S P
                  (call (E.influx.find_organization_by_name (connection_of c x) c.spec.org_name)) _
                  _ s₂ (some org) (some o) r
                  (find_organization-Gives E req config_name secret_name S I o r c x org id u s₂ h₂)
                  (λ s₃ h₃. rw (need_valid_id_lem E (some org) id s₃ u.valid) (
                    check-ok E E.tokens req S P
                      (call (E.influx.find_authorizations_by_org_id (connection_of c x) id)) throw _
                      s₃ (some r.authorizations) (some o) r
                      (find_authorizations-Gives E req config_name secret_name S I o r c x org id u
                        s₃ h₃)
                      (λ s₄ h₄.
                        rw (find_authorization_lem (description_of o) r.authorizations)
                          (k s₄ h₄)))))))

  cleaned :
      (rest : List Authorization) (s : Sys E.World) (o : Token) (r : Remote)
      → Sees E E.tokens req S s (some o) r
      → IsClean rest o r
      → has_finalizer E o ≡ true
      → amount o r ≡ 0
      → Gives E E.tokens req S (finalize_resources E o req s) (ok tt) (some o) r
  unfolding delete_authorization
  cleaned rest s o r h ((named, _, c, x, org, id, u), keyed, kept) held none_left =
      listed (λ t. Gives E E.tokens req S t (ok tt) (some o) r) o r c x org id u s h named held
        (λ s' h'.
          rw (Keyed.find_missing id_of (is_described (description_of o)) r.authorizations none_left)
            (refl, h'.0, h'.1))

  delete-Gives :
      (o : Token) (r : Remote) (k : Connection) (old : String) (s : Sys E.World)
      → Sees E E.tokens req S s (some o) r
      → IsAdmin r.config r.secret k
      → Keyed.has_id id_of old r.authorizations ≡ true
      → Gives E E.tokens req S
          (call (E.influx.delete_authorization_with_id k old) s)
          (ok tt)
          (some o)
          (record r { authorizations = Keyed.without id_of old r.authorizations })
  delete-Gives o r k old s (eo, er) client there =
      call-Gives E E.tokens req S (E.influx.delete_authorization_with_id k old) s (reply tt)
        (some o) (record r { authorizations = Keyed.without id_of old r.authorizations })
        (I.delete_accepted s.world k old (rw er client) (rw er there))
        (I.object-delete s.world k old ∙ eo)
        (I.remote-delete s.world k old (rw er client) (rw er there)
          ∙ ap
              (λ (y : Remote). record y {
                authorizations = Keyed.without id_of old y.authorizations;
              })
              er)

  -- The outcome that `IsCleanup.deleting` asks for.
  abbrev Deleting : List Authorization → Token → Remote → Outcome (Unit {0}) × Sys E.World → Type 0
  Deleting rest o r t =
      (st : Status (Option (Dict String))) × (r' : Remote) × (Gives E E.tokens req S t
        (err object_updated) (some (record o { status = st })) r')
      × IsClean rest (record o { status = st }) r'
      × (st.phase ≡ o.status.phase)
      × (amount o r' < amount o r)

  deleting :
      (rest : List Authorization) (s : Sys E.World) (o : Token) (r : Remote)
      → Sees E E.tokens req S s (some o) r
      → IsClean rest o r
      → has_finalizer E o ≡ true
      → 0 < amount o r
      → Deleting rest o r (finalize_resources E o req s)
  unfolding delete_authorization
  deleting rest s o r h ((named, secret_named, c, x, org, id, u), keyed, kept) held left =
      let (a, old, finds, e, ne, there, less, same, keyed') =
        Keyed.find_found id_of (is_described (description_of o)) r.authorizations keyed left in
      let k = connection_of c x in
      let r' = record r { authorizations = Keyed.without id_of old r.authorizations } in
      let u' : IsUsable secret_name r' c x org id = record {
        config = u.config;
        secret = u.secret;
        organization = u.organization;
        token = u.token;
        valid = u.valid;
        apart = u.apart;
        complete = All-without old r.authorizations u.complete;
      } in
      listed (Deleting rest o r) o r c x org id u s h named held (λ s' h'.
        rw (finds, e)
          (check-ok E E.tokens req S (Deleting rest o r)
            (call (E.influx.delete_authorization_with_id k old)) throw _ s' tt (some o) r'
            (delete-Gives o r k old s' h' (connection_of-IsAdmin c x u.config u.secret u.token)
              there)
            (λ s'' h''.
              let (st, phase, g) =
                mark_deleted-Gives E E.tokens none req S reason_deleted_token
                  "deleted influxdb token" s'' o r' h'' in
              (
                st,
                r',
                g,
                ((named, secret_named, c, x, org, id, u'), keyed', same ∙ kept),
                phase,
                less,
              ))))

  skipped :
      (s : Sys E.World) (o : Token)
      → has_finalizer E o ≡ false
      → finalize_resources E o req s ≡ (ok tt, s)
  unfolding finalize_resources
  skipped s o free = rw free refl

  description_kept : (o p : Token) → SameKey o p → description_of p ≡ description_of o
  description_kept o p k = rw (k.name, k.namespace, k.uid) refl

  pub token-IsCleanup :
      (rest : List Authorization)
      → IsCleanup E E.tokens req S (finalize_resources E) (IsClean rest) amount
  token-IsCleanup rest = record {
    amount_key = λ o p r k.
        ap (λ d. Keyed.count id_of (is_described d) r.authorizations)
          (sym (description_kept o p k));
    usable_kept = λ o p r k e (usable, keyed, kept). (
      usable_kept_lem E req config_name secret_name o p r k e usable,
      keyed,
      ap (λ d. Keyed.others id_of (is_described d) r.authorizations) (description_kept o p k)
          ∙ kept,
    );
    skipped = skipped;
    cleaned = cleaned rest;
    deleting = deleting rest;
  }
