-- ===== src/Gibbs/Sharder.antt =====
-- core/gibbs/sharder.go: the allocation of a slice of histograms to buckets of similar size. Sums and
-- products of the sizes are below the length of a slice, so `int` does not overflow.
pub mod Layout
pub mod Contents
use open_peacock.Prelude.{
  ℕ, zero, suc, ◌+◌, ◌-◌, ◌*◌, ◌/◌, ◌%◌, Option, none, some, List, [], length, get_elem?, set,
  replicate, ltb, if◌then◌else◌, ◌==◌,
}
use open_peacock.Prelude.Int.{ℤ, pos, leb_ℤ, to_index}
use open_peacock.Prelude.Run.{Run, ok, panic, ◌>>=◌, ◌>>◌, panic_if, or_panic}
use open_peacock.Map.{Map, insert}

-- A Sharder holds a positive number of buckets.
pub record Sharder : Type 0 where
  pub shards : ℕ

-- NewSharder
unfoldable pub new_sharder : ℤ → Run Sharder
new_sharder shards = do
  panic_if (leb_ℤ shards (pos 0))
  n ← or_panic (to_index shards)
  ok (record { shards = n })

-- The bucket sizes that ShardModel computes for `v` histograms.
pub record Sizes : Type 0 where
  pub buckets : ℕ
  pub bucket_size : ℕ
  pub extended_buckets : ℕ

-- `b := min(s.Shards, v)`; the division by zero when there is no histogram panics.
unfoldable pub sizes : ℕ → ℕ → Run Sizes
sizes shards v =
    let b = if ltb v shards then v else shards in
    if b == 0
    then panic
    else ok (record { buckets = b; bucket_size = v / b; extended_buckets = v % b })

module _ {H : Type 0} where
  -- The loop over `k`: `count` histograms from index `t` on into one bucket.
  unfoldable pub fill : ℕ → ℕ → List (Option H) → Map H → Run (Map H)
  fill zero t hists bucket = ok bucket
  fill (suc count) t hists bucket = or_panic (get_elem? hists t) >>= λ h.
      fill count (suc t) hists (elim h [ some x ↦ insert (pos t) x bucket | none ↦ bucket ])

  -- A loop over `j`: `count` buckets of `size` histograms, bucket `j` from index `start + j * size`
  -- on, written to `m` from index `at` on.
  unfoldable pub fill_buckets :
      ℕ → ℕ → ℕ → ℕ → ℕ → List (Option H) → List (Option (Map H)) → Run (List (Option (Map H)))
  fill_buckets zero j size start at hists m = ok m
  fill_buckets (suc count) j size start at hists m =
      fill size (start + j * size) hists [] >>= λ bucket.
      fill_buckets count (suc j) size start at hists (set m (at + j) (some bucket))

  -- ShardModel: the extended buckets first, then the normal ones; the other buckets stay nil.
  unfoldable pub shard_model : Sharder → List (Option H) → Run (List (Option (Map H)))
  shard_model s hists = do
    z ← sizes s.shards (length hists)
    let extended = z.bucket_size + 1
    m ← fill_buckets z.extended_buckets 0 extended 0 0 hists (replicate s.shards none)
    fill_buckets (z.buckets - z.extended_buckets) 0 z.bucket_size (z.extended_buckets * extended)
        z.extended_buckets hists m
