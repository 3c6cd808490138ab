-- ===== src/Train/Shards.antt =====
-- cmd/multithread/multithread.go: the documents stay consistent through a training with shards.
use open_peacock.Prelude.{
  ℕ, zero, suc, ◌-◌, ◌≡◌, refl, sym, ap, subst, inl, inr, Bool, some, List, [], ◌∷◌, if◌then◌else◌,
  Bool-cases,
}
use open_peacock.Prelude.Int.{ℤ, pos, negsuc, ltb_ℤ, to_index}
use open_peacock.Prelude.Run.{Run, ok, or_panic, returned, ok_injective}
use open_peacock.Runtime.{Runtime, Heaps}
use open_peacock.Float64.{Float64, Rand}
use open_peacock.Gibbs.Model.{Model, clone}
use open_peacock.Gibbs.Document.{Document}
use open_peacock.Gibbs.Sampler.{
  Sampler, new_sampler, load_at, store_at, set_diff, get_diff, after_optimization,
}
use open_peacock.Gibbs.Sampler.Step.{sample}
use open_peacock.Gibbs.Sampler.Consistency.{sample-IsConsistent}
use open_peacock.Train.Single.{is_eval_time}
use open_peacock.Train.Multi.{
  MultiFlags, Parallel, cap_shards, sample_stride, sample_shard, new_diffs, add_diffs,
  optimize_model, evaluate_shards, shard_iteration, train_shards_loop, train_shards,
}
use open_peacock.Train.Multi.Races.{IsRaceFree, IsParallelFor, in_turn}
use open_peacock.Train.Multi.Shard.{shard_cells, sample_shard-IsRaceFree}
use open_peacock.Train.Documents.{AllConsistent, Sampled, Sampled-cons, Sampled-trans}

index_pos : (z : ℤ) (n : ℕ) → or_panic (to_index z) ≡ ok n → z ≡ pos n
index_pos (pos k) n e = ap pos (ok_injective e)
index_pos (negsuc k) n e = cc

-- A property that every call keeps holds after all of them.
in_turn_inv :
    {S : Type 0} (P : S → Type 0) (f : ℤ → S → Run S)
    → ((i : ℤ) (s s' : S) → P s → f i s ≡ ok s' → P s')
    → (is : List ℤ) (s s' : S) → P s
    → in_turn f is s ≡ ok s'
    → P s'
in_turn_inv P f keeps [] s s' h e = subst P (ok_injective e) h
in_turn_inv P f keeps (i ∷ is) s s' h e =
    let (s₁, p, e₁) = returned (f i s) _ e in in_turn_inv P f keeps is s₁ s' (keeps i s s₁ h p) e₁

module _ (go : Runtime) (heap : Heaps) (fl : Float64) (rand : Rand (Float64.F fl)) where
  open fl use {F}
  open rand use {State}

  sample_stride-Sampled :
      (step skip : ℕ) (ds es : List Document) (s s' : Sampler F) (rng rng' : State)
      → AllConsistent ds
      → sample_stride go heap fl rand step skip ds s rng ≡ ok (s', es, rng')
      → Sampled ds es
  unfolding sample_stride
  sample_stride-Sampled step skip [] es s s' rng rng' c e =
      subst (λ x. Sampled [] x) (ap (λ x. x.1) (ok_injective e)) (tt, refl)
  sample_stride-Sampled step (suc skip) (d ∷ ds) es s s' rng rng' c e =
      let ((s₁, es₁, rng₁), p, e₁) =
        returned (sample_stride go heap fl rand step skip ds s rng) _ e in
      subst (λ x. Sampled (d ∷ ds) x) (ap (λ x. x.1) (ok_injective e₁))
        (Sampled-cons d d ds es₁ c.0 refl
          (sample_stride-Sampled step skip ds es₁ s s₁ rng rng₁ c.1 p))
  sample_stride-Sampled step zero (d ∷ ds) es s s' rng rng' c e =
      let ((s₁, d₁, rng₁), p, e₁) = returned (sample go fl rand s d rng) _ e in
      let ((s₂, es₁, rng₂), p₁, e₂) =
        returned (sample_stride go heap fl rand step (step - 1) ds s₁ rng₁) _ e₁ in
      let (c₁, w) = sample-IsConsistent go fl rand s s₁ d d₁ rng rng₁ c.0 p in
      subst (λ x. Sampled (d ∷ ds) x) (ap (λ x. x.1) (ok_injective e₂))
        (Sampled-cons d d₁ ds es₁ c₁ w
          (sample_stride-Sampled step (step - 1) ds es₁ s₁ s₂ rng₁ rng₂ c.1 p₁))

  sample_shard-Sampled :
      (m : Model F) (b : Bool) (shards : ℤ) (rng : State) (i : ℤ)
      (x y : List Document × List (Model F))
      → AllConsistent x.0
      → sample_shard go heap fl rand m b shards rng i x ≡ ok y
      → Sampled x.0 y.0
  unfolding sample_shard
  sample_shard-Sampled m b shards rng i (ds, diffs) y c e =
      let (local, p, e₁) = returned (clone go fl m) _ e in
      let (s, p₁, e₂) = returned (new_sampler go fl local) _ e₁ in
      let (diff, p₂, e₃) = returned (load_at diffs i) _ e₂ in
      let (s₁, p₃, e₄) =
        returned
          (if b
            then after_optimization go fl (set_diff s (some diff))
            else ok (set_diff s (some diff)))
          _ e₃ in
      let (step, p₄, e₅) = returned (or_panic (to_index shards)) _ e₄ in
      let (first, p₅, e₆) = returned (or_panic (to_index i)) _ e₅ in
      let ((s₂, es, rng₂), p₆, e₇) =
        returned (sample_stride go heap fl rand step first ds s₁ rng) _ e₆ in
      let (diff', p₇, e₈) = returned (or_panic (get_diff s₂)) _ e₇ in
      let (diffs', p₈, e₉) = returned (store_at diffs i diff') _ e₈ in
      subst (λ z. Sampled ds z) (ap (λ z. z.0) (ok_injective e₉))
        (sample_stride-Sampled step first ds es s₁ s₂ rng rng₂ c p₆)

  module _ (parallel_for : Parallel) (exp log : F → F) (parallel : IsParallelFor parallel_for) where
    shard_iteration-Sampled :
        (flags : MultiFlags F) (vocab shards : ℤ) (seed : State) (iter : ℕ) (m m' : Model F)
        (ds es : List Document) (x : F)
        → AllConsistent ds
        → shard_iteration go heap fl rand parallel_for exp log flags vocab shards seed iter m ds
          ≡ ok (m', es, x)
        → Sampled ds es
    unfolding shard_iteration
    shard_iteration-Sampled flags vocab shards seed iter m m' ds es x c e =
        let optimized = ltb_ℤ flags.flags.optim_start (pos iter) in
        let (n, p, e₁) = returned (or_panic (to_index shards)) _ e in
        let (diffs, p₁, e₂) = returned (new_diffs go heap fl rand n flags vocab) _ e₁ in
        let ((es₁, diffs₁), p₂, e₃) =
          returned
            (parallel_for (List Document × List (Model F)) (pos 0) shards (pos 1)
              (sample_shard go heap fl rand m optimized shards seed) (ds, diffs))
            _ e₂ in
        let (m₁, p₃, e₄) = returned (add_diffs go heap fl rand diffs₁ m) _ e₃ in
        let (m₂, p₄, e₅) =
          returned (optimize_model go heap fl rand flags.flags optimized es₁ m₁) _ e₄ in
        let (b, p₅, e₆) = returned (is_eval_time iter flags.flags.eval_lag) _ e₅ in
        let (y, p₆, e₇) =
          returned
            (evaluate_shards go heap fl rand parallel_for exp log flags.flags b shards m₂ es₁) _
            e₆ in
        let whole : shards ≡ pos n = index_pos shards n p in
        let (is, _, q) =
          parallel (List Document × List (Model F)) (shard_cells F n) (pos 0) shards (pos 1)
            (sample_shard go heap fl rand m optimized shards seed) (ds, diffs) (es₁, diffs₁)
            (subst
              (λ z.
                IsRaceFree (shard_cells F n) (pos 0) z
                  (sample_shard go heap fl rand m optimized z seed))
              (sym whole) (sample_shard-IsRaceFree go heap fl rand m optimized n seed))
            p₂ in
        subst (λ z. Sampled ds z) (ap (λ z. z.1) (ok_injective e₇))
          (in_turn_inv (λ z. Sampled ds z.0) (sample_shard go heap fl rand m optimized shards seed)
            (λ i z z' h r.
              Sampled-trans ds z.0 z'.0 h
                (sample_shard-Sampled m optimized shards seed i z z' h.0 r))
            is (ds, diffs) (es₁, diffs₁) (c, refl) q)

    train_shards_loop-Sampled :
        (interrupted : ℕ → Bool) (flags : MultiFlags F) (vocab shards : ℤ) (seed : State)
        (n iter : ℕ) (m m' : Model F) (ds es : List Document)
        → AllConsistent ds
        → train_shards_loop go heap fl rand parallel_for exp log interrupted flags vocab shards seed
            n iter m ds
          ≡ ok (m', es)
        → Sampled ds es
    unfolding train_shards_loop
    train_shards_loop-Sampled interrupted flags vocab shards seed zero iter m m' ds es c e =
        subst (λ x. Sampled ds x) (ap (λ x. x.1) (ok_injective e)) (c, refl)
    train_shards_loop-Sampled interrupted flags vocab shards seed (suc n) iter m m' ds es c e =
        elim (Bool-cases (interrupted iter)) [
          | inl q ↦
              subst (λ x. Sampled ds x)
                (ap (λ x. x.1) (ok_injective (rw (train_shards_loop, q) at e))) (c, refl)
          | inr q ↦
              let ((m₁, es₁, x), p, e₁) =
                returned
                  (shard_iteration go heap fl rand parallel_for exp log flags vocab shards seed iter
                    m ds)
                  _ (rw (train_shards_loop, q) at e) in
              let done = shard_iteration-Sampled flags vocab shards seed iter m m₁ ds es₁ x c p in
              Sampled-trans ds es₁ es done (
                train_shards_loop-Sampled interrupted flags vocab shards seed n (suc iter) m₁ m' es₁
                  es done.0 e₁)
        ]

    -- Suppose that calls of parallel.For without a data race have the effect that they have in some
    -- order, where calls with a data race may do anything. When the trainer with shards then returns,
    -- from any model and any consistent documents, the documents are consistent and have the words of
    -- before.
    pub train_shards-Sampled :
        (interrupted : ℕ → Bool) (flags : MultiFlags F) (vocab : ℤ) (seed : State) (m m' : Model F)
        (ds es : List Document)
        → AllConsistent ds
        → train_shards go heap fl rand parallel_for exp log interrupted flags vocab seed m ds
          ≡ ok (m', es)
        → Sampled ds es
    unfolding train_shards
    train_shards-Sampled interrupted flags vocab seed m m' ds es c e =
        train_shards_loop-Sampled interrupted flags vocab (cap_shards flags.shards ds) seed
          flags.flags.gibbs_iter 0 m m' ds es c e
