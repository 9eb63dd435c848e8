-- ===== src/Bucket/Ids.antt =====
-- The buckets of an organization and their ids: what the loop over them finds.
use influxdb_operator.Base.{
  suc, ◌≤◌, ℕ, ◌<◌, String, ◌≡◌, ◌≢◌, refl, Bool, true, ◌==◌, Option, some, List, [], ◌∷◌, arith,
}
use influxdb_operator.Effect.{Sys, ok}
use influxdb_operator.Environment.{InfluxBucket}
use influxdb_operator.Lifecycle.Keyed
use influxdb_operator.Bucket.Defs.{find_id}

abbrev pub id_of : InfluxBucket → Option String
id_of b = b.id

abbrev pub is_named : String → InfluxBucket → Bool
is_named name b = b.name == name

-- The buckets with another id, and with another name; how many have the name.
abbrev pub without : String → List InfluxBucket → List InfluxBucket
without = Keyed.without id_of

abbrev pub others : String → List InfluxBucket → List InfluxBucket
others name = Keyed.others id_of (is_named name)

abbrev pub count : String → List InfluxBucket → ℕ
count name = Keyed.count id_of (is_named name)

abbrev pub has_bucket_id : String → List InfluxBucket → Bool
has_bucket_id = Keyed.has_id id_of

unfoldable pub length : List InfluxBucket → ℕ
length [] = 0
length (b ∷ bs) = suc (length bs)

pub length-without : (id : String) (bs : List InfluxBucket) → length (without id bs) ≤ length bs
unfolding length Keyed.without
length-without id [] = omega arith
length-without id (b ∷ bs) = ground (arith, length-without id bs)

-- Every bucket has an id of its own, which is not empty.
abbrev pub IsKeyed : List InfluxBucket → Type 0
IsKeyed = Keyed.IsKeyed id_of

find_id-find :
    {W : Type 0} (name id : String) (bs : List InfluxBucket) (b : InfluxBucket) (s : Sys W)
    → Keyed.find id_of (is_named name) bs ≡ some b
    → b.id ≡ some id
    → find_id name bs s ≡ (ok id, s)
unfolding find_id Keyed.find
find_id-find name id [] b s finds e = ground arith
find_id-find name id (c ∷ bs) b s finds e = ground (arith, find_id-find name id bs b s)

-- What the loop gives where a bucket of the name is there: the id of such a bucket, whose deletion
-- takes away one bucket of the name and no other.
pub find_id_found :
    {W : Type 0} (name : String) (bs : List InfluxBucket)
    → IsKeyed bs
    → 0 < count name bs
    → (id : String) × ((s : Sys W) → find_id name bs s ≡ (ok id, s))
      × (id ≢ "")
      × (has_bucket_id id bs ≡ true)
      × (count name (without id bs) < count name bs)
      × (others name (without id bs) ≡ others name bs)
      × IsKeyed (without id bs)
find_id_found name bs keyed some_left =
    let (b, id, finds, e, ne, there, less, kept, keyed') =
      Keyed.find_found id_of (is_named name) bs keyed some_left in
    (id, λ s. find_id-find name id bs b s finds e, ne, there, less, kept, keyed')

-- What it gives where none is there.
pub find_id_missing :
    {W : Type 0} (name : String) (bs : List InfluxBucket) (s : Sys W)
    → count name bs ≡ 0
    → find_id name bs s ≡ (ok "", s)
unfolding find_id Keyed.count
find_id_missing name [] s h = refl
find_id_missing name (b ∷ bs) s h = ground (arith, find_id_missing name bs s)

pub others_lem : (name : String) (bs : List InfluxBucket) → count name bs ≡ 0 → others name bs ≡ bs
others_lem name = Keyed.others_lem id_of (is_named name)
