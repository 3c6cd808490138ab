-- ===== src/Examples/Buckets.antt =====
-- The theorems on the sharder applied to a slice with a missing histogram, which stands for a word
-- that no document has.
use open_peacock.Prelude.{ℕ, ◌≡◌, refl, Option, none, some, List, [], ◌∷◌, length, get_elem?, arith}
use open_peacock.Prelude.Int.{pos}
use open_peacock.Prelude.Run.{ok}
use open_peacock.Map.{Map}
use open_peacock.Gibbs.Sharder.{Sharder, shard_model}
use open_peacock.Gibbs.Sharder.Layout.{Holds, shard_model-Holds}
use open_peacock.Gibbs.Sharder.Contents.{AllFromSlice, shard_model-AllFromSlice}

abbrev three : List (Option ℕ)
three = some 7 ∷ none ∷ some 9 ∷ []

abbrev two_buckets : Sharder
two_buckets = record { shards = 2 }

abbrev buckets_of_three : List (Option (Map ℕ))
buckets_of_three = some ((pos 0, 7) ∷ []) ∷ some ((pos 2, 9) ∷ []) ∷ []

shard_model_example :
    (m : List (Option (Map ℕ))) × (shard_model two_buckets three ≡ ok m)
    × (length m ≡ 2)
    × ((t : ℕ) (x : ℕ) → get_elem? three t ≡ some (some x) → Holds 2 m t x)
shard_model_example = shard_model-Holds two_buckets three (omega arith) (omega arith)

three_run : shard_model two_buckets three ≡ ok buckets_of_three
unfolding shard_model open_peacock.Gibbs.Sharder.sizes open_peacock.Gibbs.Sharder.fill_buckets
    open_peacock.Gibbs.Sharder.fill open_peacock.Map.insert
three_run = refl

buckets_example : AllFromSlice three buckets_of_three
buckets_example = shard_model-AllFromSlice two_buckets three buckets_of_three three_run
