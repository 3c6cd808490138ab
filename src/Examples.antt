-- ===== src/Examples.antt =====
-- The theorems applied to small histograms, configurations and masters.
mod Services
mod Gibbs
mod Accessor
mod Training
mod Files
mod Buckets
use mathlib.Core.List.Permᴰ
use open_peacock.Prelude.{
  ℕ, ◌+◌, ◌≤◌, ◌<◌, ◌^◌, ◌≡◌, ◌≢◌, refl, sym, ◌⊎◌, inl, inr, ◌↔◌, Bool, true, false, Option, none,
  some, List, [], ◌∷◌, map, length, String, arith, ltb, if◌then◌else◌,
}
use open_peacock.Prelude.Int.{ℤ, pos, negsuc, ◌+ℤ◌, ◌-ℤ◌, ◌≤ℤ◌, ◌<ℤ◌, eqb_ℤ}
use open_peacock.Prelude.Word.{int32, int64, max_int32, max_int64, IsInt32, IsInt64}
use open_peacock.Prelude.Run.{Run, ok, panic, fatal, ◌>>=◌}
use open_peacock.Map.{Map, lookup, insert, IsMap}
use open_peacock.Runtime.{Runtime}
use open_peacock.Hist.Visit.{Adds}
use open_peacock.Hist.Dense
use open_peacock.Hist.Dense.Laws.{
  Changed as DenseChanged, dense_inc-Changed, dense_inc_returns, dense_dec-Changed,
}
use open_peacock.Hist.Sparse
use open_peacock.Hist.Sparse.{value}
use open_peacock.Hist.Sparse.Laws.{
  Changed as SparseChanged, sparse_inc-Changed, sparse_inc_returns, sparse_dec-Changed,
}
use open_peacock.Hist.Sparse.Whole.{
  sparse_clear_lem, sparse_equal_iff, sparse_add_lem, sparse_clone_lem,
}
use open_peacock.Hist.Ordered
use open_peacock.Hist.Ordered.{OrderedSparse}
use open_peacock.Hist.Ordered.Entries.{entries}
use open_peacock.Hist.Ordered.Order
use open_peacock.Hist.Ordered.Inc.{Raised, Fits, ordered_inc_correct}
use open_peacock.Hist.Ordered.Dec.{Lowered, ordered_dec_correct, ordered_dec-missing}

-- A run time whose `range` visits the entries in the order of the list.
abbrev pub in_order : Runtime
in_order = record {
  range = λ V m. m;
  range-perm = λ V m. Permᴰ.refl m;
  sort = λ A less l. l;
  sort-perm = λ A less l. Permᴰ.refl l;
}

-- Three topics, the counts falling.
abbrev three : OrderedSparse
three = record { topics = pos 4 ∷ pos 1 ∷ pos 7 ∷ []; counts = pos 5 ∷ pos 3 ∷ pos 2 ∷ [] }

three-IsWellFormed : Order.IsWellFormed three
unfolding lookup entries
three-IsWellFormed = record {
  same_length = refl;
  is_map = (refl, (refl, (refl, tt)));
  valid = ground arith;
  descending = ground arith;
}

three-Fits : Fits (entries three) (pos 7) (pos 4)
unfolding lookup entries ◌-ℤ◌ ◌+ℤ◌
three-Fits v h = ground arith

ordered_inc_example :
    (o' : OrderedSparse) × (Ordered.inc three (pos 7) (pos 4) ≡ ok o')
    × Raised three (pos 7) (pos 4) o'
ordered_inc_example =
    ordered_inc_correct three (pos 7) (pos 4) three-IsWellFormed (omega arith) three-Fits

three-lookup : lookup (pos 4) (entries three) ≡ some (pos 5)
unfolding lookup entries
three-lookup = refl

ordered_dec_example :
    (o' : OrderedSparse) × (Ordered.dec three (pos 4) (pos 3) ≡ ok o')
    × Lowered three (pos 4) (pos 3) o'
ordered_dec_example =
    ordered_dec_correct three (pos 4) (pos 3) (pos 5) three-IsWellFormed (omega arith) three-lookup
      (omega arith)

three_missing : lookup (pos 2) (entries three) ≡ none
unfolding lookup entries
three_missing = refl

ordered_dec-missing_example : Ordered.dec three (pos 2) (pos 1) ≡ panic
ordered_dec-missing_example =
    ordered_dec-missing three (pos 2) (pos 1) refl (omega arith) three_missing

abbrev two : Sparse.Sparse
two = (pos 3, pos 2) ∷ (pos 5, pos 6) ∷ []

two-IsMap : IsMap two
unfolding lookup
two-IsMap = (refl, (refl, tt))

two-IsWellFormed : Sparse.IsWellFormed two
unfolding value lookup
two-IsWellFormed = record { is_map = two-IsMap; int32_counts = λ k. ground arith }

two-HasNoZero : Sparse.HasNoZero two
unfolding lookup
two-HasNoZero k h = ground arith

two_run : Sparse.inc two (pos 3) (pos 4) ≡ ok ((pos 3, pos 6) ∷ (pos 5, pos 6) ∷ [])
unfolding Sparse.inc int32 ◌-ℤ◌ value lookup insert ◌+ℤ◌
two_run = refl

sparse_inc_example :
    SparseChanged two (int32 (pos 3)) (pos 4) ((pos 3, pos 6) ∷ (pos 5, pos 6) ∷ [])
sparse_inc_example = sparse_inc-Changed two (pos 3) (pos 4) two-IsWellFormed two_run

sparse_inc_returns_example :
    ((s' : Sparse.Sparse) × (Sparse.inc two (pos 5) (pos 1) ≡ ok s'))
    ↔ ((pos 1 ≤ℤ pos 1) × (pos 1 ≤ℤ max_int32) × (value two (int32 (pos 5)) +ℤ pos 1 <ℤ max_int32))
sparse_inc_returns_example = sparse_inc_returns two (pos 5) (pos 1)

two_fits : IsInt32 (value two (int32 (pos 3)) -ℤ pos 2)
unfolding value lookup int32 ◌-ℤ◌
two_fits = omega arith

sparse_dec_example :
    (s' : Sparse.Sparse) × (Sparse.dec two (pos 3) (pos 2) ≡ ok s')
    × Sparse.IsWellFormed s'
    × Adds (value two) (int32 (pos 3)) (pos 0 -ℤ pos 2) (value s')
    × Sparse.HasNoZero s'
sparse_dec_example =
    sparse_dec-Changed two (pos 3) (pos 2) two-IsWellFormed (omega arith) (omega arith) two_fits
      two-HasNoZero

sparse_clear_example : Sparse.clear in_order two ≡ []
sparse_clear_example = sparse_clear_lem in_order two two-IsMap

abbrev other : Sparse.Sparse
other = (pos 5, pos 6) ∷ (pos 3, pos 2) ∷ []

other-IsMap : IsMap other
unfolding lookup
other-IsMap = (refl, (refl, tt))

sparse_equal_example :
    (Sparse.equal in_order two other ≡ true) ↔ ((k : ℤ) → lookup k other ≡ lookup k two)
sparse_equal_example = sparse_equal_iff in_order two other two-IsMap other-IsMap

both_fit : (k : ℤ) → IsInt32 (value two k +ℤ value other k)
unfolding value lookup ◌+ℤ◌
both_fit k = ground arith

sparse_add_example :
    value (Sparse.add in_order two other) (pos 5) ≡ value two (pos 5) +ℤ value other (pos 5)
sparse_add_example = sparse_add_lem in_order two other other-IsMap both_fit (pos 5)

sparse_clone_example : lookup (pos 3) (Sparse.clone in_order two) ≡ lookup (pos 3) two
sparse_clone_example = sparse_clone_lem in_order two two-IsMap (pos 3)

abbrev cells : Dense.Dense
cells = pos 7 ∷ pos 0 ∷ []

cells-IsWellFormed : Dense.IsWellFormed cells
cells-IsWellFormed = omega arith

cells-inc : Dense.inc cells (pos 1) (pos 4) ≡ ok (pos 7 ∷ pos 4 ∷ [])
unfolding Dense.inc Dense.at int64 ◌-ℤ◌ ◌+ℤ◌
cells-inc = refl

dense_inc_example : DenseChanged cells (pos 1) (pos 4) (pos 7 ∷ pos 4 ∷ [])
dense_inc_example =
    dense_inc-Changed cells (pos 1) (pos 4) cells-IsWellFormed (omega arith) cells-inc

dense_inc_returns_example :
    ((d' : Dense.Dense) × (Dense.inc cells (pos 0) (pos 2) ≡ ok d'))
    ↔ ((pos 0 ≤ℤ pos 2) × (Dense.count cells (pos 0) +ℤ pos 2 <ℤ max_int64))
dense_inc_returns_example = dense_inc_returns cells 0 (pos 2) (omega arith) (omega arith)

cells-dec : Dense.dec cells (pos 0) (pos 4) ≡ ok (pos 3 ∷ pos 0 ∷ [])
unfolding Dense.dec Dense.at int64 ◌-ℤ◌
cells-dec = refl

cells_fits : IsInt64 (Dense.count cells (pos 0) -ℤ pos 4)
unfolding ◌-ℤ◌
cells_fits = omega arith

dense_dec_example : DenseChanged cells (pos 0) (pos 0 -ℤ pos 4) (pos 3 ∷ pos 0 ∷ [])
dense_dec_example =
    dense_dec-Changed cells (pos 0) (pos 4) cells-IsWellFormed (omega arith) cells_fits cells-dec
