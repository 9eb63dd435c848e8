-- ===== src/Webhook/Laws.antt =====
-- What the webhooks promise to the controllers: defaulted fields, and the objects that are admitted.
use influxdb_operator.Base.{String, ◌≡◌, refl, ◌≢◌, ◌↔◌, ◌⊎◌, Bool, true, ◌<>◌, not, ◌&&◌}
use influxdb_operator.Base.{
  Option, none, some, List, [], ◌∷◌, eq_iff, arith, All, if◌then◌else◌, ◌≤◌, ℕ,
}
use text.Mathlib.TextLemmas.{cons-append, append-ne-nil_of_right_ne-nil}
use influxdb_operator.Base.Int.{ℤ, pos, negsuc, eq_ℤ, lt_ℤ, eq_ℤ_iff}
use influxdb_operator.Errors.{GoError, message}
use influxdb_operator.Api.{Bucket, Token, Permission, Config}
use influxdb_operator.Webhook.{
  or_default, in_set, default_config, validate_create_bucket, RuntimeObject, bucket, other,
  validate_update_bucket, default_token, default_bucket, validate_permissions,
  validate_create_token,
}
use influxdb_operator.Webhook.Const.{default_config_name, resource_types, permission_types}

-- A value is kept, or it is empty and the default stands in its place.
abbrev pub IsDefaulted : String → String → String → Type 0
IsDefaulted given fallback result = (given ≢ "" → result ≡ given) × (given ≡ "" → result ≡ fallback)

or_default-IsDefaulted : (s fallback : String) → IsDefaulted s fallback (or_default s fallback)
or_default-IsDefaulted s fallback =
    (λ ne. ground (arith, eq_iff s ""), λ e. ground (arith, eq_iff s ""))

-- The defaulting of a Config fills exactly its empty fields: the address with that of the service in the
-- cluster, the organization with `influxdata`, the Secret's name with `influxdb-token` and its namespace
-- with that of the Config; it changes nothing else.
pub default_config_lem :
    (r : Config)
    → IsDefaulted r.spec.addr "http://influxdb2.influxdb2-system.svc.cluster.local"
        (default_config r).spec.addr
      × IsDefaulted r.spec.org_name "influxdata" (default_config r).spec.org_name
      × IsDefaulted r.spec.token_secret_name "influxdb-token"
          (default_config r).spec.token_secret_name
      × IsDefaulted r.spec.token_secret_namespace r.namespace
          (default_config r).spec.token_secret_namespace
      × ((default_config r).name ≡ r.name)
      × ((default_config r).namespace ≡ r.namespace)
unfolding default_config
default_config_lem r = (
  or_default-IsDefaulted r.spec.addr _,
  or_default-IsDefaulted r.spec.org_name _,
  or_default-IsDefaulted r.spec.token_secret_name _,
  or_default-IsDefaulted r.spec.token_secret_namespace _,
  refl,
  refl,
)

-- A Bucket is admitted at its creation exactly if its TTL is 0 or at least 3600 seconds; a negative
-- one is refused.
pub validate_create_bucket_iff :
    (r : Bucket)
    → (validate_create_bucket r ≡ none)
      ↔ ((n : ℕ) × (r.spec.seconds_ttl ≡ pos n) × ((n ≡ 0) ⊎ (3600 ≤ n)))
unfolding validate_create_bucket
validate_create_bucket_iff r = (admitted r.spec.seconds_ttl, λ (n, e, h). rw e (accepted n h))
  where
    admitted :
        (t : ℤ)
        → (if not (eq_ℤ t (pos 0)) && lt_ℤ t (pos 3600)
            then some (message "secondsTtl needs be either 0 or >= 3600")
            else none)
          ≡ none
        → (n : ℕ) × (t ≡ pos n) × ((n ≡ 0) ⊎ (3600 ≤ n))
    admitted (pos n) h = (n, refl, grind arith)
    admitted (negsuc n) h = cc

    accepted :
        (n : ℕ)
        → (n ≡ 0) ⊎ (3600 ≤ n)
        → (if not (eq_ℤ (pos n) (pos 0)) && lt_ℤ (pos n) (pos 3600)
            then some (message "secondsTtl needs be either 0 or >= 3600")
            else none)
          ≡ none
    accepted n h = ground arith

-- An update of a Bucket is admitted exactly if the old object is a Bucket with the same spec.
pub validate_update_bucket_iff :
    (old : RuntimeObject) (r : Bucket)
    → (validate_update_bucket old r ≡ none) ↔ ((b : Bucket) × (old ≡ bucket b) × (r.spec ≡ b.spec))
unfolding validate_update_bucket
validate_update_bucket_iff other r = (λ h. cc, λ (b, e, s). cc)
validate_update_bucket_iff (bucket old) r = (
  λ h. (
    old,
    refl,
    ground (
      arith,
      eq_ℤ_iff r.spec.seconds_ttl old.spec.seconds_ttl,
      eq_iff r.spec.description old.spec.description,
    ),
  ),
  λ (b, e, s). ground (
    arith,
    eq_ℤ_iff r.spec.seconds_ttl old.spec.seconds_ttl,
    eq_iff r.spec.description old.spec.description,
  ),
)

abbrev pub IsMember : String → List String → Type 0
IsMember key [] = ⊥
IsMember key (k ∷ ks) = (k ≡ key) ⊎ IsMember key ks

in_set_iff : (key : String) (ks : List String) → (in_set key ks ≡ true) ↔ IsMember key ks
unfolding in_set
in_set_iff key [] = (λ h. cc, λ m. absurd m)
in_set_iff key (k ∷ ks) = let ih = in_set_iff key ks in ground (arith, eq_iff k key, ih)

-- The permission types and resource types of const.go.
abbrev pub IsKnown : Permission → Type 0
IsKnown p = IsMember p.permission_type permission_types × IsMember p.resource_type resource_types

admitted_parts :
    (a b : Bool) (e f : GoError) (rest : Option GoError)
    → (if not a then some e else if not b then some f else rest) ≡ none
    → (a ≡ true) × (b ≡ true) × (rest ≡ none)
admitted_parts a b e f rest h = ground arith

validate_permissions_iff :
    (ps : List Permission) → (validate_permissions ps ≡ none) ↔ All IsKnown ps
unfolding validate_permissions
validate_permissions_iff [] = (λ _. tt, λ _. refl)
validate_permissions_iff (p ∷ ps) =
    let action = in_set_iff p.permission_type permission_types in
    let resource = in_set_iff p.resource_type resource_types in
    let ih = validate_permissions_iff ps in
    (
      λ h.
          let parts = admitted_parts _ _ _ _ _ h in
          ((action.0 parts.0, resource.0 parts.1), ih.0 parts.2),
      λ ((a, r), rest). rw (action.1 a, resource.1 r) (ih.1 rest),
    )

-- A Token is admitted at its creation exactly if every permission has a known type and a known
-- resource type.
pub validate_create_token_iff :
    (r : Token) → (validate_create_token r ≡ none) ↔ All IsKnown r.spec.permissions
unfolding validate_create_token
validate_create_token_iff r = validate_permissions_iff r.spec.permissions

-- A Bucket as the API server can hold it: admitted at its creation, then updated in any number of
-- admitted steps. Defaulting leaves a Bucket as it is.
pub data Admitted : Bucket → Type 0 where
  created : (r : Bucket) → validate_create_bucket r ≡ none → Admitted (default_bucket r)
  updated :
      {b : Bucket} (r : Bucket)
      → Admitted b
      → validate_update_bucket (bucket b) r ≡ none
      → Admitted (default_bucket r)

-- Every Bucket that the webhooks let through, at its creation or by any later updates, has a TTL of 0
-- or of at least 3600 seconds.
pub Admitted-seconds_ttl :
    {b : Bucket} → Admitted b → (n : ℕ) × (b.spec.seconds_ttl ≡ pos n) × ((n ≡ 0) ⊎ (3600 ≤ n))
unfolding default_bucket
Admitted-seconds_ttl (created r h) = (validate_create_bucket_iff r).0 h
Admitted-seconds_ttl (updated {b} r a h) =
    let same = ((validate_update_bucket_iff (bucket b) r).0 h) in
    let (n, e, range) = Admitted-seconds_ttl a in (n, cc (same.1, same.2, e), range)

or_default-ne_nil : (s d : String) → d ≢ "" → or_default s d ≢ ""
or_default-ne_nil s d h = ground (arith, eq_iff s "")

dashed-ne_nil : (name short : String) → (name <> "-" <> short) ≢ ""
dashed-ne_nil name short = append-ne-nil_of_right_ne-nil name (append-ne-nil_of_left short)
  where
    append-ne-nil_of_left : (t : String) → ("-" <> t) ≢ ""
    append-ne-nil_of_left t e = cc (cons-append "-" "" t, e)

-- A defaulted Token has a Secret name and a Config name, and keeps those that it was given.
pub default_token_lem :
    (short : String) (r : Token)
    → ((default_token short r).spec.secret_name ≢ "")
      × ((default_token short r).spec.config_name ≢ "")
      × (r.spec.secret_name ≢ "" → (default_token short r).spec.secret_name ≡ r.spec.secret_name)
      × (r.spec.config_name ≢ "" → (default_token short r).spec.config_name ≡ r.spec.config_name)
unfolding default_token
default_token_lem short r = (
  or_default-ne_nil r.spec.secret_name _ (dashed-ne_nil r.name short),
  or_default-ne_nil r.spec.config_name default_config_name
      (ground (arith, eq_iff default_config_name "")),
  λ h. ground (arith, eq_iff r.spec.secret_name ""),
  λ h. ground (arith, eq_iff r.spec.config_name ""),
)
