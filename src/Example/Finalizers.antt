-- ===== src/Example/Finalizers.antt =====
-- Finalizers as a list of strings.
use influxdb_operator.Base.{
  String, ◌≡◌, refl, Bool, true, false, ◌==◌, eq_refl, List, [], ◌∷◌, ◌++◌, arith,
}
use influxdb_operator.Base.{if◌then◌else◌, Bool-cases, inl, inr}
use influxdb_operator.Environment.{FinalizerUtil}

unfoldable pub contains : List String → String → Bool
contains [] f = false
contains (g ∷ gs) f = if g == f then true else contains gs f

unfoldable pub add : List String → String → List String
unfolding contains
add gs f = if contains gs f then gs else gs ++ f ∷ []

unfoldable pub remove : List String → String → List String
remove [] f = []
remove (g ∷ gs) f = if g == f then remove gs f else g ∷ remove gs f

abbrev pub list_util : FinalizerUtil
list_util = record { contains = contains; add = add; remove = remove }

contains-append : (gs : List String) (f : String) → contains (gs ++ f ∷ []) f ≡ true
unfolding contains
contains-append [] f = rw eq_refl
contains-append (g ∷ gs) f = ground (arith, contains-append gs f)

pub contains-add : (gs : List String) (f : String) → contains (add gs f) f ≡ true
unfolding add
contains-add gs f = elim (Bool-cases (contains gs f)) [
  | inl old ↦ rw old old
  | inr new ↦ rw new (contains-append gs f)
]

pub contains-remove : (gs : List String) (f : String) → contains (remove gs f) f ≡ false
unfolding contains remove
contains-remove [] f = refl
contains-remove (g ∷ gs) f = ground (arith, contains-remove gs f)
