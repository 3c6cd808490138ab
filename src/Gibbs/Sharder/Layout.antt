-- ===== src/Gibbs/Sharder/Layout.antt =====
-- core/gibbs/sharder.go: ShardModel stays in the bounds of its slices, and no histogram is lost.
use open_peacock.Prelude.{
  ℕ, zero, suc, ◌+◌, ◌-◌, ◌*◌, ◌/◌, ◌%◌, ◌≤◌, ◌<◌, ◌≡◌, refl, sym, ap, ◌∙◌, subst, inl, inr, Option,
  none, some, List, [], ◌∷◌, length, get_elem?, set, replicate, ltb, ◌==◌, dec_lt, length-set,
  get_elem?-set_self, get_elem?-set_ne, length-replicate, arith, ltb→lt, ==_iff, false, Bool-cases,
}
use native.Mathlib.Nat
use open_peacock.Prelude.Int.{pos}
use open_peacock.Prelude.Run.{ok, ◌>>=◌}
use open_peacock.Map.{Map, lookup, insert}
use open_peacock.Map.Laws.{lookup-insert}
use open_peacock.Gibbs.Sharder.{Sharder, fill, fill_buckets, shard_model, sizes}

division : (v b : ℕ) → 0 < b → v % b * (v / b + 1) + (b - v % b) * (v / b) ≡ v
division v b p =
    let r : v % b < b = Nat.mod-lt v p in
    let whole : (v % b + (b - v % b)) * (v / b) ≡ b * (v / b) =
      ap (λ n. n * (v / b)) (omega arith) in
    omega (arith, Nat.div-add-mod v b, whole)

nonzero : (n : ℕ) → 0 < n → (n == 0) ≡ false
nonzero n p = elim (Bool-cases (n == 0)) [
  | inl e ↦ absurd (omega (arith, (==_iff n 0).0 e))
  | inr e ↦ e
]

sizes-returns :
    (shards v : ℕ)
    → 0 < shards
    → 0 < v
    → (b : ℕ) × (0 < b)
      × (b ≤ shards)
      × (sizes shards v
          ≡ ok (record { buckets = b; bucket_size = v / b; extended_buckets = v % b }))
unfolding sizes
sizes-returns shards v p q = elim (Bool-cases (ltb v shards)) [
  | inl few ↦ (v, q, omega (arith, ltb→lt v shards few), rw (few, nonzero v q))
  | inr many ↦ (shards, p, omega arith, rw (many, nonzero shards p))
]

module _ {H : Type 0} where
  -- Histogram `x` has index `t`.
  abbrev pub IsHist : List (Option H) → ℕ → H → Type 0
  IsHist hists t x = get_elem? hists t ≡ some (some x)

  -- The bucket has the histograms of the indices from `t` to `u`.
  abbrev Covers : List (Option H) → ℕ → ℕ → Map H → Type 0
  Covers hists t u bucket =
      (i : ℕ) (x : H) → t ≤ i → i < u → IsHist hists i x → lookup (pos i) bucket ≡ some x

  -- One of the first `n` buckets has histogram `x` under index `t`.
  abbrev pub Holds : ℕ → List (Option (Map H)) → ℕ → H → Type 0
  Holds n m t x =
      (i : ℕ) × (bucket : Map H) × (i < n)
      × (get_elem? m i ≡ some (some bucket))
      × (lookup (pos t) bucket ≡ some x)

  in_range :
      (hists : List (Option H)) (i : ℕ)
      → i < length hists
      → (h : Option H) × (get_elem? hists i ≡ some h)
  in_range [] i l = elim l [ ]
  in_range (h ∷ hists) zero l = (h, refl)
  in_range (h ∷ hists) (suc i) l = in_range hists i (omega arith)

  Covers-skip :
      (s t : ℕ) (hists : List (Option H)) (bucket : Map H)
      → get_elem? hists t ≡ some none
      → Covers hists s t bucket
      → Covers hists s (suc t) bucket
  Covers-skip s t hists bucket e c i x p q g = elim (dec_lt i t) [
    | yes l ↦ c i x p l g
    | no n ↦ grind arith
  ]

  Covers-insert :
      (s t : ℕ) (hists : List (Option H)) (bucket : Map H) (y : H)
      → get_elem? hists t ≡ some (some y)
      → Covers hists s t bucket
      → Covers hists s (suc t) (insert (pos t) y bucket)
  Covers-insert s t hists bucket y e c i x p q g = elim (dec_lt i t) [
    | yes l ↦ ground (arith, lookup-insert (pos i) (pos t) y bucket, c i x p l g)
    | no n ↦ grind (arith, lookup-insert (pos i) (pos t) y bucket)
  ]

  fill-Covers :
      (count t s : ℕ) (hists : List (Option H)) (bucket : Map H)
      → t + count ≤ length hists
      → Covers hists s t bucket
      → (b : Map H) × (fill count t hists bucket ≡ ok b) × Covers hists s (t + count) b
  unfolding fill
  fill-Covers zero t s hists bucket l c = (bucket, refl, λ i x p q. c i x p (omega arith))
  fill-Covers (suc count) t s hists bucket l c =
      let (h, e) = in_range hists t (omega arith) in
      let (b₁, b₁_eq, c₁) = extend h e in
      let (b, run, d) = fill-Covers count (suc t) s hists b₁ (omega arith) c₁ in
      (b, rw (e, b₁_eq, run), λ i x p q. d i x p (omega arith))
    where
      extend :
          (h : Option H)
          → get_elem? hists t ≡ some h
          → (b : Map H) × (elim h [ some x ↦ insert (pos t) x bucket | none ↦ bucket ] ≡ b)
            × Covers hists s (suc t) b
      extend none e = (bucket, refl, Covers-skip s t hists bucket e c)
      extend (some x) e = (insert (pos t) x bucket, refl, Covers-insert s t hists bucket x e c)

  -- The first `n` buckets have the histograms of the indices from `t` to `u`.
  abbrev HoldsFrom : ℕ → List (Option H) → ℕ → ℕ → List (Option (Map H)) → Type 0
  HoldsFrom n hists t u m = (i : ℕ) (x : H) → t ≤ i → i < u → IsHist hists i x → Holds n m i x

  widen : (n n' t : ℕ) (m : List (Option (Map H))) (x : H) → n ≤ n' → Holds n m t x → Holds n' m t x
  widen n n' t m x l (i, bucket, p, e, f) = (i, bucket, omega arith, e, f)

  abbrev AgreesBelow : ℕ → List (Option (Map H)) → List (Option (Map H)) → Type 0
  AgreesBelow n m m' = (i : ℕ) → i < n → get_elem? m' i ≡ get_elem? m i

  fill_buckets-Holds :
      (count j size start at : ℕ) (hists : List (Option H)) (m : List (Option (Map H)))
      → start + (j + count) * size ≤ length hists
      → at + (j + count) ≤ length m
      → (m' : List (Option (Map H))) × (fill_buckets count j size start at hists m ≡ ok m')
        × (length m' ≡ length m)
        × AgreesBelow (at + j) m m'
        × HoldsFrom (at + (j + count)) hists (start + j * size) (start + (j + count) * size) m'
  unfolding fill_buckets
  fill_buckets-Holds zero j size start at hists m l k =
      (m, refl, refl, (λ i p. refl), λ i x p q g. absurd (none_between j size start p q))
    where
      none_between :
          (j size start : ℕ) {i : ℕ} → start + j * size ≤ i → i < start + (j + 0) * size → ⊥
      none_between j size start p q = omega arith
  fill_buckets-Holds (suc count) j size start at hists m l k =
      let (b, filled, c) =
        fill-Covers size (start + j * size) (start + j * size) hists [] (omega arith)
          (λ i x p q. absurd (omega (arith, p, q))) in
      let (m', run, n, below, held) =
        fill_buckets-Holds count (suc j) size start at hists (set m (at + j) (some b)) (omega arith)
          (subst (λ z. at + (suc j + count) ≤ z) (sym (length-set m (at + j) (some b)))
            (omega arith)) in
      (
        m',
        rw (filled, run),
        n ∙ length-set m (at + j) (some b),
        (λ i p. below i (omega arith) ∙ get_elem?-set_ne m (some b) (λ e. absurd (omega arith))),
        λ i x p q g. elim (dec_lt i (start + suc j * size)) [
          | yes r ↦ (
            at + j,
            b,
            omega arith,
            below (at + j) (omega arith) ∙ get_elem?-set_self m (at + j) (some b) (omega arith),
            c i x p (omega arith) g,
          )
          | no r ↦ widen _ _ i m' x (omega arith) (held i x (omega arith) (omega arith) g)
        ],
      )

  -- The two loops over `e` buckets of `size + 1` histograms and `n` of `size`.
  loops-Holds :
      (shards e n size : ℕ) (hists : List (Option H))
      → e * (size + 1) + n * size ≡ length hists
      → e + n ≤ shards
      → (m : List (Option (Map H))) × (fill_buckets e 0 (size + 1) 0 0 hists (replicate shards none)
            >>= (λ k. fill_buckets n 0 size (e * (size + 1)) e hists k)
          ≡ ok m)
        × (length m ≡ shards)
        × ((t : ℕ) (x : H) → t < length hists → IsHist hists t x → Holds shards m t x)
  loops-Holds shards e n size hists total l =
      let empty : List (Option (Map H)) = replicate shards none in
      let blank : length empty ≡ shards = length-replicate shards none in
      let (m₁, run₁, n₁, _, held₁) =
        fill_buckets-Holds e 0 (size + 1) 0 0 hists empty (omega arith) (omega arith) in
      let (m₂, run₂, n₂, below, held₂) =
        fill_buckets-Holds n 0 size (e * (size + 1)) e hists m₁ (omega arith) (omega arith) in
      (
        m₂,
        rw (run₁, run₂),
        n₂ ∙ n₁ ∙ blank,
        λ t x r g. elim (dec_lt t (e * (size + 1))) [
          | yes p ↦
              let (i, b, q, f, h) = held₁ t x (omega arith) (omega arith) g in
              (i, b, omega arith, below i (omega arith) ∙ f, h)
          | no p ↦ widen _ _ t m₂ x (omega arith) (held₂ t x (omega arith) (omega arith) g)
        ],
      )

  -- When there are at least one bucket and one index, ShardModel returns (no index is out of range):
  -- a slice of as many entries as the sharder has buckets, in which each histogram of the argument
  -- stands in one of the buckets under its index.
  pub shard_model-Holds :
      (s : Sharder) (hists : List (Option H))
      → 0 < s.shards
      → 0 < length hists
      → (m : List (Option (Map H))) × (shard_model s hists ≡ ok m)
        × (length m ≡ s.shards)
        × ((t : ℕ) (x : H) → get_elem? hists t ≡ some (some x) → Holds s.shards m t x)
  unfolding shard_model
  shard_model-Holds s hists p q =
      let (b, positive, le, sized) = sizes-returns s.shards (length hists) p q in
      let small : length hists % b < b = Nat.mod-lt (length hists) positive in
      let (m, run, n, held) =
        loops-Holds s.shards (length hists % b) (b - length hists % b) (length hists / b) hists
          (division (length hists) b positive) (omega arith) in
      (m, rw (sized, run), n, λ t x g. held t x (bound hists t g) g)
    where
      bound :
          (hists : List (Option H)) (t : ℕ) {y : Option H}
          → get_elem? hists t ≡ some y
          → t < length hists
      bound [] t e = absurd (cc)
      bound (h ∷ hists) zero e = omega arith
      bound (h ∷ hists) (suc t) e = omega (arith, bound hists t e)
