-- ===== src/Token/Steps.antt =====
-- The Secret of a Token under healthy servers.
use influxdb_operator.Base.{
  String, ◌≡◌, refl, ◌∙◌, sym, ap, true, false, ◌||◌, ◌<>◌, eq_refl, none, some,
}
use influxdb_operator.Base.{arith, Option-cases, Bool-cases, inl, inr}
use influxdb_operator.Base.Dict.{lookup}
use influxdb_operator.Errors.{client}
use influxdb_operator.Effect.{Sys, ok, reply, refuse, call, throw}
use influxdb_operator.Api.{NamespacedName, Token, Config}
use influxdb_operator.Environment.{Environment, Secret}
use influxdb_operator.Const.{key_token}
use influxdb_operator.Lifecycle.Connect.{log_daily, string_at}
use influxdb_operator.Lifecycle.Configured.{secret_of}
use influxdb_operator.Lifecycle.Server.{IsServer, Sees, Gives}
use influxdb_operator.Lifecycle.Rules.{check-ok, check-err, call-Gives, log_daily-Gives}
use influxdb_operator.Token.Data.{Issued, new_secret, token_contents, is_stale}
use influxdb_operator.Token.Defs.{create_secret, refresh_secret, write_secret}
use influxdb_operator.Token.Server.{Remote, IsInflux, holds, same_name, secret_name_of}

holds-token_contents :
    (token : String) (x : Secret) → x.contents ≡ token_contents token → holds token (some x) ≡ true
unfolding is_stale string_at lookup
holds-token_contents token x e = ground (arith, e, eq_refl token, eq_refl key_token)

module _ (E : Environment) (req config_name secret_name : NamespacedName)
    (S : IsServer E E.tokens req Remote) (I : IsInflux E req config_name secret_name S) (o : Token)
    (r : Remote) (c : Config) (config : r.config ≡ some c)
    (apart : same_name (secret_of c) secret_name ≡ false)
    (named : secret_name_of o ≡ secret_name) where
  abbrev pub with_secret : Secret → Remote
  with_secret x = record r { token_secret = some x }

  create_secret-Gives_new :
      (token : String) (s : Sys E.World)
      → Sees E E.tokens req S s (some o) r
      → r.token_secret ≡ none
      → (x : Secret) × (holds token (some x) ≡ true)
        × Gives E E.tokens req S (create_secret E o token s) (ok false) (some o) (with_secret x)
  unfolding create_secret
  create_secret-Gives_new token s (eo, er) free =
      let x = record (new_secret o token) { creation_timestamp = (E.now s.world).0 } in
      let w = (E.now s.world).1 in
      let (accepted, stored) =
        I.create_secret_new w x named (rw (S.remote-now s.world ∙ er) free) in
      (
        x,
        holds-token_contents token x refl,
        check-ok E E.tokens req S
            (λ t. Gives E E.tokens req S t (ok false) (some o) (with_secret x))
            (call (E.secrets.create x)) _ _ (record s { world = w }) tt (some o) (with_secret x)
            (call-Gives E E.tokens req S (E.secrets.create x) (record s { world = w }) (reply tt)
              (some o) (with_secret x) accepted
              (I.object-create_secret w x ∙ (S.object-now s.world ∙ eo))
              (stored
                ∙ ap (λ (y : Remote). record y { token_secret = some x })
                    (S.remote-now s.world ∙ er)))
            (λ s' h'. (refl, h'.0, h'.1)),
      )

  create_secret-Gives_taken :
      (token : String) (old : Secret) (s : Sys E.World)
      → Sees E E.tokens req S s (some o) r
      → r.token_secret ≡ some old
      → Gives E E.tokens req S (create_secret E o token s) (ok true) (some o) r
  unfolding create_secret
  create_secret-Gives_taken token old s (eo, er) taken =
      let x = record (new_secret o token) { creation_timestamp = (E.now s.world).0 } in
      let w = (E.now s.world).1 in
      let (e, refused, exists, same) =
        I.create_secret_taken w x old named (rw (S.remote-now s.world ∙ er) taken) in
      check-err E E.tokens req S (λ t. Gives E E.tokens req S t (ok true) (some o) r)
        (call (E.secrets.create x)) _ _ (record s { world = w }) (client e) (some o) r
        (call-Gives E E.tokens req S (E.secrets.create x) (record s { world = w }) (refuse e)
          (some o) r refused (I.object-create_secret w x ∙ (S.object-now s.world ∙ eo))
          (same ∙ (S.remote-now s.world ∙ er)))
        (λ s' h'. rw exists (
          check-ok E E.tokens req S (λ t. Gives E E.tokens req S t (ok true) (some o) r)
            (log_daily E (o.uid <> "-" <> "secret")) throw _ s' tt (some o) r
            (log_daily-Gives E E.tokens req S _ s' (some o) r h')
            (λ s'' h''. (refl, h''.0, h''.1))))

  with_secret_lem : (old : Secret) → r.token_secret ≡ some old → r ≡ with_secret old
  with_secret_lem old there = ap (λ m. record r { token_secret = m }) there

  get_secret-Gives :
      (old : Secret) (s : Sys E.World)
      → Sees E E.tokens req S s (some o) r
      → r.token_secret ≡ some old
      → Gives E E.tokens req S (call (E.secrets.get (secret_name_of o)) s) (ok old) (some o) r
  get_secret-Gives old s (eo, er) there =
      call-Gives E E.tokens req S (E.secrets.get (secret_name_of o)) s (reply old) (some o) r
        (rw named (I.get_token_secret_found c old (rw er config) apart (rw er there)))
        (I.configured.object-get_secret s.world (secret_name_of o) ∙ eo)
        (I.configured.remote-get_secret s.world (secret_name_of o) ∙ er)

  update_secret-Gives :
      (old x : Secret) (s : Sys E.World)
      → Sees E E.tokens req S s (some o) r
      → r.token_secret ≡ some old
      → x.name ≡ old.name
      → x.namespace ≡ old.namespace
      → Gives E E.tokens req S (call (E.secrets.update x) s) (ok tt) (some o) (with_secret x)
  update_secret-Gives old x s (eo, er) there name namespace =
      let (accepted, stored) =
        I.update_secret_accepted s.world x old (rw er there) name namespace in
      call-Gives E E.tokens req S (E.secrets.update x) s (reply tt) (some o) (with_secret x)
        accepted (I.object-update_secret s.world x ∙ eo)
        (stored ∙ ap (λ (y : Remote). record y { token_secret = some x }) er)

  refresh_secret-Gives :
      (token : String) (old : Secret) (s : Sys E.World)
      → Sees E E.tokens req S s (some o) r
      → r.token_secret ≡ some old
      → (x : Secret) × (holds token (some x) ≡ true)
        × (holds token (some old) ≡ true → x ≡ old)
        × Gives E E.tokens req S (refresh_secret E o token s) (ok tt) (some o) (with_secret x)
  unfolding refresh_secret
  refresh_secret-Gives token old s h there = elim (Bool-cases (is_stale token old)) [
    | inr fresh ↦ (
      old,
      rw fresh refl,
      λ _. refl,
      check-ok E E.tokens req S (λ t. Gives E E.tokens req S t (ok tt) (some o) (with_secret old))
          (call (E.secrets.get (secret_name_of o))) throw _ s old (some o) r
          (get_secret-Gives old s h there)
          (λ s' h'. rw fresh (refl, h'.0, h'.1 ∙ with_secret_lem old there)),
    )
    | inl stale ↦
        let x = record old { contents = token_contents token } in
        (
          x,
          holds-token_contents token x refl,
          λ held. absurd (ground arith),
          check-ok E E.tokens req S (λ t. Gives E E.tokens req S t (ok tt) (some o) (with_secret x))
              (call (E.secrets.get (secret_name_of o))) throw _ s old (some o) r
              (get_secret-Gives old s h there)
              (λ s' h'. rw stale (update_secret-Gives old x s' h' there refl refl)),
        )
  ]

  -- The whole write, for an authorization that exists or was created by this call.
  pub write_secret-Gives :
      (i : Issued) (s : Sys E.World)
      → Sees E E.tokens req S s (some o) r
      → i.exists || i.created ≡ true
      → (x : Secret) × (holds i.token (some x) ≡ true)
        × (holds i.token r.token_secret ≡ true → some x ≡ r.token_secret)
        × Gives E E.tokens req S (write_secret E o i s) (ok tt) (some o) (with_secret x)
  unfolding write_secret
  write_secret-Gives i s h due = elim (Option-cases r.token_secret) [
    | inl free ↦
        let (x, held, g) = create_secret-Gives_new i.token s h free in
        (
          x,
          held,
          λ there. absurd (let bad : false ≡ true = rw free at there in ground arith),
          rw due (
              check-ok E E.tokens req S
                (λ t. Gives E E.tokens req S t (ok tt) (some o) (with_secret x))
                (create_secret E o i.token) throw _ s false (some o) (with_secret x) g
                (λ s' h'. (refl, h'.0, h'.1))),
        )
    | inr (old, taken) ↦
        let (e, eo, er) = create_secret-Gives_taken i.token old s h taken in
        let (x, held, kept, g) =
          refresh_secret-Gives i.token old (create_secret E o i.token s).1 (eo, er) taken in
        (x, held, λ there. ap some (kept (rw taken at there)) ∙ sym taken, rw (due, e) g)
  ]
