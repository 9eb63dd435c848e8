-- ===== src/Lifecycle/Keyed.antt =====
-- The things of InfluxDB that a list holds, with their ids: the loops over such a list look for the first
-- one that is meant, and a deletion by its id takes it away.
use influxdb_operator.Base.{
  ℕ, suc, ◌<◌, String, ◌≡◌, ◌≢◌, refl, ◌∙◌, Bool, true, false, ◌==◌, eq_iff, eq_refl, ap, Option,
  none, some, List, [], ◌∷◌,
}
use influxdb_operator.Base.{if◌then◌else◌, arith, Bool-cases, inl, inr}

pub ne_false : (id : String) → id ≢ "" → (id == "") ≡ false
ne_false id ne = elim (Bool-cases (id == "")) [
  | inl same ↦ absurd (ne ((eq_iff id "").0 same))
  | inr other ↦ other
]

module _ {A : Type 0} (id_of : A → Option String) where
  -- The elements with another id.
  unfoldable pub without : String → List A → List A
  without id [] = []
  without id (a ∷ xs) = elim (id_of a) [
    | none ↦ a ∷ without id xs
    | some i ↦ if i == id then without id xs else a ∷ without id xs
  ]

  unfoldable pub has_id : String → List A → Bool
  has_id id [] = false
  has_id id (a ∷ xs) = elim (id_of a) [
    | none ↦ has_id id xs
    | some i ↦ if i == id then true else has_id id xs
  ]

  -- Every element has an id of its own, which is not empty.
  abbrev pub IsKeyed : List A → Type 0
  IsKeyed [] = Unit
  IsKeyed (a ∷ xs) =
      (id : String) × (id_of a ≡ some id) × (id ≢ "") × (has_id id xs ≡ false) × IsKeyed xs

  pub without_same :
      (id i : String) (a : A) (xs : List A)
      → id_of a ≡ some i
      → (i == id) ≡ true
      → without id (a ∷ xs) ≡ without id xs
  unfolding without
  without_same id i a xs e same = ground arith

  pub without_apart :
      (id i : String) (a : A) (xs : List A)
      → id_of a ≡ some i
      → (i == id) ≡ false
      → without id (a ∷ xs) ≡ a ∷ without id xs
  unfolding without
  without_apart id i a xs e apart = ground arith

  without_lem : (id : String) (xs : List A) → has_id id xs ≡ false → without id xs ≡ xs
  unfolding without has_id
  without_lem id [] h = refl
  without_lem id (a ∷ xs) h = ground (arith, without_lem id xs)

  has_id-without :
      (i id : String) (xs : List A) → has_id i xs ≡ false → has_id i (without id xs) ≡ false
  unfolding without has_id
  has_id-without i id [] h = refl
  has_id-without i id (a ∷ xs) h = ground (arith, has_id-without i id xs)

  without-IsKeyed : (id : String) (xs : List A) → IsKeyed xs → IsKeyed (without id xs)
  unfolding without
  without-IsKeyed id [] h = tt
  without-IsKeyed id (a ∷ xs) (i, e, ne, new, h) = elim (Bool-cases (i == id)) [
    | inl same ↦ rw (without_same id i a xs e same) (without-IsKeyed id xs h)
    | inr apart ↦
        rw (without_apart id i a xs e apart)
          (i, e, ne, has_id-without i id xs new, without-IsKeyed id xs h)
  ]

  ids_differ :
      (i id : String) (xs : List A) → has_id i xs ≡ false → has_id id xs ≡ true → (i == id) ≡ false
  ids_differ i id xs new old = elim (Bool-cases (i == id)) [
    | inr apart ↦ apart
    | inl same ↦
        absurd (let e : i ≡ id = (eq_iff i id).0 same in ground (arith, ap (λ j. has_id j xs) e))
  ]

  module _ (meant : A → Bool) where
    -- The first element that is meant.
    unfoldable pub find : List A → Option A
    find [] = none
    find (a ∷ xs) = if meant a then some a else find xs

    -- The elements that are not meant, and how many are.
    unfoldable pub others : List A → List A
    others [] = []
    others (a ∷ xs) = if meant a then others xs else a ∷ others xs

    unfoldable pub count : List A → ℕ
    count [] = 0
    count (a ∷ xs) = if meant a then suc (count xs) else count xs

    count_skip : (a : A) (xs : List A) → meant a ≡ false → 0 < count (a ∷ xs) → 0 < count xs
    unfolding count
    count_skip a xs different lt = ground arith

    -- Where one is meant, the first of them has an id, whose deletion takes away one that is meant, and
    -- no other element.
    pub find_found :
        (xs : List A)
        → IsKeyed xs
        → 0 < count xs
        → (a : A) × (id : String) × (find xs ≡ some a)
          × (id_of a ≡ some id)
          × (id ≢ "")
          × (has_id id xs ≡ true)
          × (count (without id xs) < count xs)
          × (others (without id xs) ≡ others xs)
          × IsKeyed (without id xs)
    unfolding find count others has_id
    find_found [] h lt = absurd (omega arith)
    find_found (a ∷ xs) (i, e, ne, new, h) lt = elim (Bool-cases (meant a)) [
      | inl named ↦
          let gone = without_same i i a xs e (eq_refl i) ∙ without_lem i xs new in
          (
            a,
            i,
            rw named refl,
            e,
            ne,
            ground (arith, eq_refl i),
            rw (gone, count, named) (omega arith),
            rw (gone, others, named) refl,
            rw gone h,
          )
      | inr different ↦
          let (b, id, finds, there, ne', old, less, kept, h') =
            find_found xs h (count_skip a xs different lt) in
          let stays = without_apart id i a xs e (ids_differ i id xs new old) in
          (
            b,
            id,
            rw different finds,
            there,
            ne',
            ground arith,
            rw (stays, count, different) less,
            rw (stays, others, different) (ap (λ ys. a ∷ ys) kept),
            rw stays (i, e, ne, has_id-without i id xs new, h'),
          )
    ]

    pub find_missing : (xs : List A) → count xs ≡ 0 → find xs ≡ none
    unfolding find count
    find_missing [] h = refl
    find_missing (a ∷ xs) h = ground (arith, find_missing xs)

    pub others_lem : (xs : List A) → count xs ≡ 0 → others xs ≡ xs
    unfolding count others
    others_lem [] h = refl
    others_lem (a ∷ xs) h = ground (arith, others_lem xs)
