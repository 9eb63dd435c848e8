-- ===== src/Example/SecretTests.antt =====
-- The Secret of a Token, written and read back.
use influxdb_operator.Base.{◌≡◌, refl, false, Option, none, some, arith}
use influxdb_operator.Effect.{ok, reply, refuse}
use influxdb_operator.Api.{Config}
use influxdb_operator.Environment.{Environment, Secret}
use influxdb_operator.Lifecycle.Connect.{connect}
use influxdb_operator.Token.Data.{new_secret, is_stale}
use influxdb_operator.Token.Defs.{create_secret}
use influxdb_operator.Token.Secrets.{ReadsBack, connect-create_secret}
use influxdb_operator.Example.Memory.{World, memory, not_found}
use influxdb_operator.Example.Data.{start, token}

-- An API server with the Secret of one Token.
abbrev keeping : Environment
keeping = record memory {
  secrets = record memory.secrets {
    get = λ n w. (elim w.token_secret [ none ↦ refuse not_found | some x ↦ reply x ], w);
  };
}

created_or_there :
    (x : Secret) (o : Option Secret) (w : World)
    → w.token_secret ≡ o
    → (keeping.secrets.create x w).0 ≡ reply tt
    → (keeping.secrets.get
        (record { namespace = x.namespace; name = x.name })
        (keeping.secrets.create x w).1).0
      ≡ reply x
created_or_there x none w e accepted = rw e refl
created_or_there x (some old) w e accepted = ground arith

keeping-ReadsBack : ReadsBack keeping
keeping-ReadsBack x w accepted = created_or_there x w.token_secret w refl accepted

-- The Secret is created.
new_secret_created : (create_secret keeping token "t0k3n" start).0 ≡ ok false
unfolding create_secret
new_secret_created = refl

-- A Config that names the Secret of the Token.
abbrev using_token : Config
using_token = record {
  name = "user";
  namespace = "ns";
  spec = record {
    addr = "http://influxdb";
    org_name = "acme";
    token_secret_name = "writer-token";
    token_secret_namespace = "ns";
  };
}

connect-create_secret_example :
    ((connect keeping using_token (create_secret keeping token "t0k3n" start).1).0
      ≡ ok (record { addr = "http://influxdb"; token = "t0k3n" }))
    × (is_stale "t0k3n" (new_secret token "t0k3n") ≡ false)
connect-create_secret_example =
    connect-create_secret keeping token "t0k3n" using_token start keeping-ReadsBack refl refl
      new_secret_created
