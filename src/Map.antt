-- ===== src/Map.antt =====
-- Go's `map[int]V` and `map[int32]V` as association lists with distinct keys: the indexing
-- expressions, `delete`, and what does not depend on the order of the entries.
pub mod Laws
pub mod Size
use open_peacock.Prelude.{ℕ, ◌+◌, ◌≡◌, Option, none, some, List, [], ◌∷◌, ◌==◌, if◌then◌else◌}
use open_peacock.Prelude.Int.{ℤ, eqb_ℤ}

abbrev pub Map : Type 0 → Type 0
Map V = List (ℤ × V)

module _ {V : Type 0} where
  -- `v, ok := m[k]`
  unfoldable pub lookup : ℤ → Map V → Option V
  lookup k [] = none
  lookup k (e ∷ m) = if eqb_ℤ k e.0 then some e.1 else lookup k m

  -- `m[k] = v`
  unfoldable pub insert : ℤ → V → Map V → Map V
  insert k v [] = (k, v) ∷ []
  insert k v (e ∷ m) = if eqb_ℤ k e.0 then (k, v) ∷ m else e ∷ insert k v m

  -- `delete(m, k)`
  unfoldable pub erase : ℤ → Map V → Map V
  erase k [] = []
  erase k (e ∷ m) = if eqb_ℤ k e.0 then erase k m else e ∷ erase k m

  -- No key has two entries.
  abbrev pub IsMap : Map V → Type 0
  IsMap [] = Unit
  IsMap (e ∷ m) = (lookup e.0 m ≡ none) × IsMap m
