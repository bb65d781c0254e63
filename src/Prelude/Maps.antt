-- ===== src/Prelude/Maps.antt =====
-- Go's maps with string keys, as association lists, and sets of strings. A range over a map visits
-- the entries in list order, which stands for any order: no theorem but the tests fixes it.
use Prim.Native.String.{String}
use mathlib.Core.Path.{◌≡◌}
use mathlib.Core.Bool.{Bool, true, false, ◌||◌}
use mathlib.Core.Option.{Option, none, some}
use mathlib.Core.List.{List, [], ◌∷◌}
use native.Mathlib.Omega.{arith}
use text.Mathlib.Text.{◌==◌}
use text.Mathlib.TextEquality.{eq_iff}
use ocpi_mock_hub.Prelude.Tests.{if◌then◌else◌}

abbrev pub Dict {ℓ} : Type ℓ → Type ℓ
Dict V = List (String × V)

module _ {ℓ} {V : Type ℓ} where
  unfoldable pub lookup : String → Dict V → Option V
  lookup k [] = none
  lookup k ((j, v) ∷ m) = if j == k then some v else lookup k m

  -- delete(m, k)
  unfoldable pub without : String → Dict V → Dict V
  without k [] = []
  without k ((j, v) ∷ m) = let rest = without k m in if j == k then rest else (j, v) ∷ rest

  -- m[k] = v
  unfoldable pub put : String → V → Dict V → Dict V
  unfolding without
  put k v m = (k, v) ∷ without k m

  unfoldable pub values : Dict V → List V
  values [] = []
  values ((j, v) ∷ m) = v ∷ values m

  pub lookup-without :
      (k j : String) (m : Dict V) → lookup j (without k m) ≡ (if k == j then none else lookup j m)
  unfolding lookup without
  lookup-without k j [] = ground arith
  lookup-without k j ((i, v) ∷ m) =
      ground (arith, lookup-without k j m, eq_iff i k, eq_iff i j, eq_iff k j)

  pub lookup-put :
      (k j : String) (v : V) (m : Dict V)
      → lookup j (put k v m) ≡ (if k == j then some v else lookup j m)
  unfolding lookup put
  lookup-put k j v m = ground (arith, lookup-without k j m)

-- Sets of strings: map[string]bool whose values are all true.
unfoldable pub has : String → List String → Bool
has k [] = false
has k (j ∷ s) = j == k || has k s

unfoldable pub erase : String → List String → List String
erase k [] = []
erase k (j ∷ s) = let rest = erase k s in if j == k then rest else j ∷ rest

unfoldable pub add : String → List String → List String
unfolding erase
add k s = k ∷ erase k s

pub has-erase :
    (k j : String) (s : List String) → has j (erase k s) ≡ (if k == j then false else has j s)
unfolding has erase
has-erase k j [] = ground arith
has-erase k j (i ∷ s) = ground (arith, has-erase k j s, eq_iff i k, eq_iff i j, eq_iff k j)

pub has-add :
    (k j : String) (s : List String) → has j (add k s) ≡ (if k == j then true else has j s)
unfolding has add
has-add k j s = ground (arith, has-erase k j s)

pub ruleset map_laws = (lookup-without, lookup-put, has-erase, has-add)
