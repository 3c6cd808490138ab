-- ===== src/Train/Multi/Races.antt =====
-- What cmd/multithread/multithread.go uses of `parallel.For` and of Go's memory model: goroutines
-- without a data race behave as if they ran one after the other.
use mathlib.Core.List.{Permᴰ}
use open_peacock.Prelude.{
  ℕ, zero, suc, ◌≡◌, ◌≢◌, ◌⊎◌, Option, none, some, List, [], ◌∷◌, if◌then◌else◌,
}
use open_peacock.Prelude.Int.{ℤ, pos_part, ◌+ℤ◌, ◌-ℤ◌, ◌≤ℤ◌, ◌<ℤ◌, ltb_ℤ}
use open_peacock.Prelude.Run.{Run, ok, ◌>>=◌}
use open_peacock.Train.Multi.{Parallel}

-- The indices of `for i := from; i < to; i += step`, in at most that many rounds.
unfoldable pub loop_indices : ℕ → ℤ → ℤ → ℤ → List ℤ
loop_indices zero i to step = []
loop_indices (suc n) i to step =
    let rest = loop_indices n (i +ℤ step) to step in if ltb_ℤ i to then i ∷ rest else []

-- The calls of the function for a list of indices, one after the other.
abbrev pub in_turn : {S : Type 0} → (ℤ → S → Run S) → List ℤ → S → Run S
in_turn f [] s = ok s
in_turn f (i ∷ is) s = f i s >>= in_turn f is

-- A state as its memory cells. A cell may belong to the call with an index; the others are only read.
pub record Cells (S : Type 0) : Type 1 where
  pub Cell : Type 0
  pub Value : Cell → Type 0
  pub read : (k : Cell) → S → Value k
  pub owner : Cell → Option ℤ
  pub covers : (s t : S) → ((k : Cell) → read k s ≡ read k t) → s ≡ t

-- No data race in the calls with the indices from `from` to `to`: a call writes only cells of its own,
-- and what it writes there is determined by its own cells and those that no call writes.
pub record IsRaceFree {S : Type 0} (c : Cells S) (from to : ℤ) (f : ℤ → S → Run S) : Type 0 where
  pub writes_own :
      (i : ℤ) (s s' : S)
      → from ≤ℤ i
      → i <ℤ to
      → f i s ≡ ok s'
      → (k : c.Cell) → c.owner k ≢ some i
      → c.read k s' ≡ c.read k s
  pub reads_own :
      (i : ℤ) (s s' t : S)
      → from ≤ℤ i
      → i <ℤ to
      → ((k : c.Cell) → (c.owner k ≡ none) ⊎ (c.owner k ≡ some i) → c.read k s ≡ c.read k t)
      → f i s ≡ ok s'
      → (t' : S) × (f i t ≡ ok t') × ((k : c.Cell) → c.owner k ≡ some i → c.read k s' ≡ c.read k t')

-- `parallel.For` calls the function in a goroutine for each index of the loop and waits for them all.
-- Of calls with a data race nothing is assumed. By Go's memory model calls without one have an effect
-- that they have in some order.
abbrev pub IsParallelFor : Parallel → Type 1
IsParallelFor parallel_for =
    (S : Type 0) (c : Cells S) (from to step : ℤ) (f : ℤ → S → Run S) (s s' : S)
    → IsRaceFree c from to f
    → parallel_for S from to step f s ≡ ok s'
    → (is : List ℤ) × Permᴰ (loop_indices (pos_part (to -ℤ from)) from to step) is
      × (in_turn f is s ≡ ok s')
