-- ===== src/Gibbs/Sharder/Contents.antt =====
-- core/gibbs/sharder.go: what the buckets of ShardModel hold comes from the slice.
use open_peacock.Prelude.{
  ℕ, zero, suc, ◌+◌, ◌*◌, ◌≡◌, refl, sym, ap, subst, ◌∙◌, ◌⊎◌, inl, inr, Option, none, some, List,
  [], ◌∷◌, length, get_elem?, set, replicate, if◌then◌else◌, true, false,
}
use open_peacock.Prelude.Int.{ℤ, pos, eqb_ℤ, eqb→eq}
use open_peacock.Prelude.Run.{ok, or_panic, returned, ok_injective}
use open_peacock.Map.{Map, lookup, insert}
use open_peacock.Map.Laws.{lookup-insert}
use open_peacock.Gibbs.Sharder.{Sharder, fill, fill_buckets, shard_model, sizes}
use open_peacock.Gibbs.Sharder.Layout.{IsHist}

module _ {H : Type 0} where
  -- Each entry of the bucket is a histogram of the slice, under its index.
  abbrev pub FromSlice : List (Option H) → Map H → Type 0
  FromSlice hists bucket =
      (k : ℤ) (x : H) → lookup k bucket ≡ some x → (t : ℕ) × (k ≡ pos t) × IsHist hists t x

  abbrev pub AllFromSlice : List (Option H) → List (Option (Map H)) → Type 0
  AllFromSlice hists m =
      (i : ℕ) (bucket : Map H) → get_elem? m i ≡ some (some bucket) → FromSlice hists bucket

  insert-FromSlice :
      (hists : List (Option H)) (bucket : Map H) (t : ℕ) (y : H)
      → IsHist hists t y
      → FromSlice hists bucket
      → FromSlice hists (insert (pos t) y bucket)
  insert-FromSlice hists bucket t y e from k x f =
      go (eqb_ℤ k (pos t)) refl (sym (lookup-insert k (pos t) y bucket) ∙ f)
    where
      go :
          (b : _)
          → eqb_ℤ k (pos t) ≡ b
          → (if b then some y else lookup k bucket) ≡ some x
          → (t : ℕ) × (k ≡ pos t) × IsHist hists t x
      go true q g = (t, eqb→eq k (pos t) q, e ∙ ap some g)
      go false q g = from k x g

  fill-FromSlice :
      (count t : ℕ) (hists : List (Option H)) (bucket b : Map H)
      → FromSlice hists bucket
      → fill count t hists bucket ≡ ok b
      → FromSlice hists b
  unfolding fill
  fill-FromSlice zero t hists bucket b from run = subst (FromSlice hists) (ok_injective run) from
  fill-FromSlice (suc count) t hists bucket b from run =
      let (h, e, rest) = returned (or_panic (get_elem? hists t)) _ run in
      let (b₁, eq, from₁) = extend h (or_panic-some (get_elem? hists t) e) in
      fill-FromSlice count (suc t) hists b₁ b from₁
        (subst (λ z. fill count (suc t) hists z ≡ ok b) eq rest)
    where
      or_panic-some : (o : Option (Option H)) {h : Option H} → or_panic o ≡ ok h → o ≡ some h
      or_panic-some none e = absurd (cc)
      or_panic-some (some h) e = ap some (ok_injective e)

      extend :
          (h : Option H)
          → get_elem? hists t ≡ some h
          → (b : Map H) × (elim h [ some x ↦ insert (pos t) x bucket | none ↦ bucket ] ≡ b)
            × FromSlice hists b
      extend none e = (bucket, refl, from)
      extend (some y) e = (insert (pos t) y bucket, refl, insert-FromSlice hists bucket t y e from)

  get_elem?-set :
      (m : List (Option (Map H))) (n i : ℕ) (v y : Option (Map H))
      → get_elem? (set m n v) i ≡ some y
      → (v ≡ y) ⊎ (get_elem? m i ≡ some y)
  get_elem?-set [] n i v y e = inr e
  get_elem?-set (x ∷ m) zero zero v y e = inl cc
  get_elem?-set (x ∷ m) zero (suc i) v y e = inr e
  get_elem?-set (x ∷ m) (suc n) zero v y e = inr e
  get_elem?-set (x ∷ m) (suc n) (suc i) v y e = get_elem?-set m n i v y e

  set-AllFromSlice :
      (hists : List (Option H)) (m : List (Option (Map H))) (n : ℕ) (b : Map H)
      → FromSlice hists b
      → AllFromSlice hists m
      → AllFromSlice hists (set m n (some b))
  set-AllFromSlice hists m n b from all i c e = elim (get_elem?-set m n i (some b) (some c) e) [
    | inl f ↦ subst (FromSlice hists) (same f) from
    | inr f ↦ all i c f
  ]
    where
      same : {c : Map H} → some b ≡ some c → b ≡ c
      same e = cc

  fill_buckets-AllFromSlice :
      (count j size start at : ℕ) (hists : List (Option H)) (m n : List (Option (Map H)))
      → AllFromSlice hists m
      → fill_buckets count j size start at hists m ≡ ok n
      → AllFromSlice hists n
  unfolding fill_buckets lookup
  fill_buckets-AllFromSlice zero j size start at hists m n all run =
      subst (AllFromSlice hists) (ok_injective run) all
  fill_buckets-AllFromSlice (suc count) j size start at hists m n all run =
      let (b, filled, rest) = returned (fill size (start + j * size) hists []) _ run in
      fill_buckets-AllFromSlice count (suc j) size start at hists (set m (at + j) (some b)) n
        (set-AllFromSlice hists m (at + j) b
          (fill-FromSlice size (start + j * size) hists [] b (nothing hists) filled) all)
        rest
    where
      nothing : (hists : List (Option H)) → FromSlice hists []
      nothing hists k x e = absurd cc

  -- When ShardModel returns, each entry of each bucket is a histogram of the slice, under its index.
  pub shard_model-AllFromSlice :
      (s : Sharder) (hists : List (Option H)) (m : List (Option (Map H)))
      → shard_model s hists ≡ ok m
      → AllFromSlice hists m
  unfolding shard_model
  shard_model-AllFromSlice s hists m run =
      let (z, _, rest) = returned (sizes s.shards (length hists)) _ run in
      let (m₁, first, second) =
        returned
          (fill_buckets z.extended_buckets 0 (z.bucket_size + 1) 0 0 hists
            (replicate s.shards none))
          _ rest in
      fill_buckets-AllFromSlice _ 0 _ _ _ hists m₁ m
        (fill_buckets-AllFromSlice _ 0 _ 0 0 hists _ m₁ (blank s.shards) first) second
    where
      blank : (n : ℕ) → AllFromSlice hists (replicate n none)
      blank zero i b e = absurd cc
      blank (suc n) zero b e = absurd cc
      blank (suc n) (suc i) b e = blank n i b e
