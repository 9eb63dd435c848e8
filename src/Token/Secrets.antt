-- ===== src/Token/Secrets.antt =====
-- The Secret of a Token: what is written and what is read back.
use influxdb_operator.Base.{ℕ, String, ◌≡◌, refl, false, eq_refl, inl, inr, arith}
use influxdb_operator.Effect.{Sys, ok, reply}
use influxdb_operator.Api.{Token, Config}
use influxdb_operator.Environment.{Environment, Secret}
use influxdb_operator.Const.{key_token}
use influxdb_operator.Lifecycle.Connect.{log_daily, connect, string_at}
use influxdb_operator.Base.Dict.{lookup}
use influxdb_operator.Lifecycle.Safety.{Reply-cases}
use influxdb_operator.Token.Defs.{create_secret}
use influxdb_operator.Token.Data.{new_secret, token_contents, is_stale}

read_back : (t : String) → string_at (token_contents t) key_token ≡ t
unfolding string_at lookup
read_back t = refl

fresh : (t : String) (x : Secret) → x.contents ≡ token_contents t → is_stale t x ≡ false
unfolding is_stale
fresh t x e = rw (e, read_back t, eq_refl t) refl

-- A Secret with the contents for a token is read back.
connect-token_contents :
    (E : Environment) (c : Config) (s : Sys E.World) (x : Secret) (t : String)
    → (E.secrets.get
        (record { namespace = c.spec.token_secret_namespace; name = c.spec.token_secret_name })
        s.world).0
      ≡ reply x
    → x.contents ≡ token_contents t
    → (connect E c s).0 ≡ ok (record { addr = c.spec.addr; token = t })
unfolding connect
connect-token_contents E c s x t answered e = rw (answered, e, read_back t) refl

abbrev secret_of : Token → String → ℕ → Secret
secret_of o t time = record (new_secret o t) { creation_timestamp = time }

-- A created Secret is answered to the next read of its name.
abbrev pub ReadsBack : Environment → Type 0
ReadsBack E =
    (x : Secret) (w : E.World)
    → (E.secrets.create x w).0 ≡ reply tt
    → (E.secrets.get (record { namespace = x.namespace; name = x.name }) (E.secrets.create x w).1).0
      ≡ reply x

-- A Secret is created exactly by the one call.
create_secret_made :
    (E : Environment) (o : Token) (t : String) (s : Sys E.World)
    → (create_secret E o t s).0 ≡ ok false
    → let (time, w) = E.now s.world in
      ((E.secrets.create (secret_of o t time) w).0 ≡ reply tt)
      × ((create_secret E o t s).1.world ≡ (E.secrets.create (secret_of o t time) w).1)
unfolding create_secret log_daily
create_secret_made E o t s created =
    elim (Reply-cases (E.secrets.create (secret_of o t (E.now s.world).0) (E.now s.world).1).0) [
      | inl (u, accepted) ↦ (accepted, rw accepted refl)
      | inr (e, refused) ↦ ground (arith)
    ]

-- Where a created Secret is answered to the next read of its name: once the Token controller has created
-- the Secret for a token, a Config that names it connects to InfluxDB with that token, and the Secret does
-- not count as stale.
pub connect-create_secret :
    (E : Environment) (o : Token) (t : String) (c : Config) (s : Sys E.World)
    → ReadsBack E
    → c.spec.token_secret_namespace ≡ o.namespace
    → c.spec.token_secret_name ≡ o.spec.secret_name
    → (create_secret E o t s).0 ≡ ok false
    → ((connect E c (create_secret E o t s).1).0 ≡ ok (record { addr = c.spec.addr; token = t }))
      × (is_stale t (new_secret o t) ≡ false)
connect-create_secret E o t c s reads namespace name created =
    let (accepted, after) = create_secret_made E o t s created in
    let x = secret_of o t (E.now s.world).0 in
    (
      connect-token_contents E c (create_secret E o t s).1 x t
          (rw (namespace, name, after) (reads x (E.now s.world).1 accepted)) refl,
      fresh t (new_secret o t) refl,
    )
