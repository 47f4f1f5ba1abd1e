-- ===== src/Base/Maps.antt =====
-- Go maps with string keys as association lists without an order that the code could rely on.
use go_repo_dojo.Base.Tests.{Bytes, bytes_eq, bytes_eq_iff, if◌then◌else◌, Bool-cases}
use mathlib.Core.Bool.{Bool, true, false}
use mathlib.Core.Logic.{inl, inr}
use mathlib.Core.Path.{◌≡◌, refl}
use mathlib.Core.List.{List, [], ◌∷◌}
use mathlib.Core.Option.{Option, none, some}
use native.Mathlib.Omega.{arith}

module _ {ℓ} {V : Type ℓ} where
  unfoldable pub map_get : Bytes → List (Bytes × V) → Option V
  map_get k [] = none
  map_get k ((j, v) ∷ m) = if bytes_eq j k then some v else map_get k m

  unfoldable pub map_set : Bytes → V → List (Bytes × V) → List (Bytes × V)
  map_set k v [] = (k, v) ∷ []
  map_set k v ((j, w) ∷ m) = if bytes_eq j k then (k, v) ∷ m else (j, w) ∷ map_set k v m

  unfoldable pub map_delete : Bytes → List (Bytes × V) → List (Bytes × V)
  map_delete k [] = []
  map_delete k ((j, w) ∷ m) =
      let rest = map_delete k m in if bytes_eq j k then rest else (j, w) ∷ rest

  pub map_get-map_set :
      (k j : Bytes) (v : V) (m : List (Bytes × V))
      → map_get j (map_set k v m) ≡ (if bytes_eq k j then some v else map_get j m)
  unfolding map_get map_set
  map_get-map_set k j v [] = refl
  map_get-map_set k j v ((i, w) ∷ m) =
      ground (arith, bytes_eq_iff k j, bytes_eq_iff i k, bytes_eq_iff i j, map_get-map_set k j v m)

  pub map_get-map_delete :
      (k j : Bytes) (m : List (Bytes × V))
      → map_get j (map_delete k m) ≡ (if bytes_eq k j then none else map_get j m)
  unfolding map_get map_delete
  map_get-map_delete k j [] = ground arith
  map_get-map_delete k j ((i, w) ∷ m) =
      ground (arith, bytes_eq_iff k j, bytes_eq_iff i k, bytes_eq_iff i j, map_get-map_delete k j m)

-- A Go map from strings to Booleans, where a missing key reads as false.
abbrev pub Names : Type 0
Names = List (Bytes × Bool)

is_true : Option Bool → Bool
is_true none = false
is_true (some b) = b

unfoldable pub contains : Names → Bytes → Bool
unfolding is_true
contains m k = is_true (map_get k m)

pub contains-map_set :
    (m : Names) (k j : Bytes)
    → contains (map_set k true m) j ≡ (if bytes_eq k j then true else contains m j)
unfolding contains is_true
contains-map_set m k j = elim (Bool-cases (bytes_eq k j)) [
  | inl e ↦ rw (map_get-map_set k j true m, e)
  | inr e ↦ rw (map_get-map_set k j true m, e)
]
