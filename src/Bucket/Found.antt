-- ===== src/Bucket/Found.antt =====
-- What the loop over the buckets finds.
use influxdb_operator.Base.{String, ◌≡◌, ◌⊎◌, inl, inr, false, ◌==◌, some, List, ◌∷◌}
use mathlib.Core.List.{Memᴰ}
use influxdb_operator.Base.{◌∙◌, ap, sym}
use mathlib.Core.Path.{subst}
use influxdb_operator.Environment.{InfluxBucket}
use influxdb_operator.Bucket.Writes.{IsUnlisted}

-- What the loop over the buckets finds.
abbrev pub IsFound : String → List InfluxBucket → String → Type 0
IsFound name bs id =
    ((id ≡ "") × IsUnlisted name (some bs))
    ⊎ ((b : InfluxBucket) × Memᴰ b bs × (b.name ≡ name) × (b.id ≡ some id))

pub IsFound-later :
    (name : String) (b : InfluxBucket) (bs : List InfluxBucket) (id : String)
    → (b.name == name) ≡ false
    → IsFound name bs id
    → IsFound name (b ∷ bs) id
IsFound-later name b bs id other (inl (empty, inl none_named)) = inl (empty, inl λ c m. named c m)
  where
    named : (c : InfluxBucket) → Memᴰ c (b ∷ bs) → (c.name == name) ≡ false
    named c (Memᴰ.head e) = subst (λ d. (d.name == name) ≡ false) (sym e) other
    named c (Memᴰ.tail m) = none_named c m
IsFound-later name b bs id other (inl (empty, inr (c, m, named, has))) =
    inl (empty, inr (c, Memᴰ.tail m, named, has))
IsFound-later name b bs id other (inr (c, m, named, has)) = inr (c, Memᴰ.tail m, named, has)

-- Where the id is empty, the bucket is not listed.
pub IsFound-IsUnlisted :
    (name : String) (bs : List InfluxBucket) (id : String)
    → IsFound name bs id
    → id ≡ ""
    → IsUnlisted name (some bs)
IsFound-IsUnlisted name bs id (inl (empty, unlisted)) e = unlisted
IsFound-IsUnlisted name bs id (inr (b, m, named, has)) e = inr (b, m, named, has ∙ ap some e)
