-- ===== src/Token/Found.antt =====
-- The loop over the authorizations, and what is known of the one that it finds, in any world.
use influxdb_operator.Base.{
  String, ◌≡◌, refl, inl, inr, Bool, true, false, Option, none, some, List, [], ◌∷◌,
}
use influxdb_operator.Base.{if◌then◌else◌}
use influxdb_operator.Base.{◌⊎◌, ◌∙◌, ap}
use mathlib.Core.List.{Memᴰ}
use influxdb_operator.Effect.{reply}
use influxdb_operator.Api.{Token}
use influxdb_operator.Environment.{Environment, Connection, Authorization}
use influxdb_operator.Token.Writes.{IsListed}
use influxdb_operator.Token.Data.{description_of, is_described, find_authorization}

-- What is known of an answer of `FindAuthorizationsByOrgID`.
abbrev pub AreListed : Environment → Option (List Authorization) → Type 0
AreListed E listed =
    (k : Connection) × (org_id : String) × (w : E.World) × ((E.influx.find_authorizations_by_org_id
        k org_id w).0
      ≡ reply listed)

-- What is known of the authorization that is searched for.
abbrev pub IsFound : Environment → Token → Option Authorization → Type 0
IsFound E o none = Unit
IsFound E o (some a) = IsListed E o a

-- Where a loop stops at an element or goes on.
first-none :
    {A : Type 0} (t : Bool) (b : A) (rest : Option A)
    → (if t then some b else rest) ≡ none
    → (t ≡ false) × (rest ≡ none)
first-none true b rest e = cc
first-none false b rest e = (refl, e)

first-some :
    {A : Type 0} (t : Bool) (a b : A) (rest : Option A)
    → (if t then some b else rest) ≡ some a
    → ((t ≡ true) × (a ≡ b)) ⊎ (rest ≡ some a)
first-some true a b rest e = inl (refl, cc)
first-some false a b rest e = inr e

find_authorization-finds :
    (description : String) (all : List Authorization) (a : Authorization)
    → find_authorization description all ≡ some a
    → Memᴰ a all × (is_described description a ≡ true)
unfolding find_authorization
find_authorization-finds description [] a e = cc
find_authorization-finds description (b ∷ all) a e =
    elim (first-some (is_described description b) a b (find_authorization description all) e) [
      | inl (same, at) ↦ (Memᴰ.head at, ap (is_described description) at ∙ same)
      | inr later ↦
          let (m, same) = find_authorization-finds description all a later in (Memᴰ.tail m, same)
    ]

pub find_authorization-lacks :
    (description : String) (all : List Authorization) (a : Authorization)
    → find_authorization description all ≡ none
    → Memᴰ a all
    → is_described description a ≡ false
unfolding find_authorization
find_authorization-lacks description [] a e m = elim m [ ]
find_authorization-lacks description (b ∷ all) a e (Memᴰ.head at) =
    ap (is_described description) at
    ∙ (first-none (is_described description b) b (find_authorization description all) e).0
find_authorization-lacks description (b ∷ all) a e (Memᴰ.tail m) =
    find_authorization-lacks description all a
      (first-none (is_described description b) b (find_authorization description all) e).1 m

pub find_authorization-IsFound :
    (E : Environment) (o : Token) (all : List Authorization)
    → AreListed E (some all)
    → IsFound E o (find_authorization (description_of o) all)
find_authorization-IsFound E o all (k, org_id, w, e) =
    go (find_authorization (description_of o) all) refl
  where
    go : (a : Option Authorization) → find_authorization (description_of o) all ≡ a → IsFound E o a
    go none none_found = tt
    go (some a) found =
        let (m, same) = find_authorization-finds (description_of o) all a found in
        ((k, org_id, w, all, e, m), same)
