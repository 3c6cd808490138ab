-- ===== src/Train/Multi.antt =====
-- cmd/multithread/multithread.go: the training loop with a sampler for each shard of the corpus. The
-- goroutines of `parallel.For` act on the corpus and the diffs, which are the state that they share.
pub mod Races
pub mod Stride
pub mod Shard
use open_peacock.Prelude.{
  ℕ, zero, suc, ◌-◌, ◌≡◌, Bool, true, false, none, some, List, [], ◌∷◌, length, if◌then◌else◌,
}
use open_peacock.Prelude.Int.{ℤ, pos, ◌+ℤ◌, ltb_ℤ, to_index}
use open_peacock.Prelude.Word.{add64}
use open_peacock.Prelude.Run.{Run, ok, ◌>>=◌, or_panic}
use open_peacock.Runtime.{Runtime, Heaps}
use open_peacock.Float64.{Float64, Rand}
use open_peacock.Gibbs.Model.{Model, new_model, clone, accumulate}
use open_peacock.Gibbs.Document.{Document}
use open_peacock.Gibbs.Sampler.{
  Sampler, load_at, store_at, after_optimization, new_sampler, set_diff, get_diff,
}
use open_peacock.Gibbs.Sampler.Step.{sample}
use open_peacock.Gibbs.Sharder.{new_sharder, shard_model}
use open_peacock.Gibbs.Optimizer.{
  Optimizer, new_optimizer, collect_document_statistics, optimize_topic_priors,
}
use open_peacock.Gibbs.Evaluator.{Evaluator, new_evaluator, perplexity}
use open_peacock.Train.Single.{Flags, is_eval_time, perplexity_of}

-- `parallel.For`, whose calls share a state; the trainer drops its error.
abbrev pub Parallel : Type 1
Parallel = (S : Type 0) → ℤ → ℤ → ℤ → (ℤ → S → Run S) → S → Run S

-- The flags `alpha`, `beta` and `shards` beside the others
pub record MultiFlags (F : Type 0) : Type 0 where
  pub flags : Flags F
  pub alpha : F
  pub beta : F
  pub shards : ℤ

-- `if shards > len(corpus) { shards = len(corpus) }`
unfoldable pub cap_shards : ℤ → List Document → ℤ
cap_shards shards corpus =
    if ltb_ℤ (pos (length corpus)) shards then pos (length corpus) else shards

module _ (go : Runtime) (heap : Heaps) (fl : Float64) (rand : Rand (Float64.F fl)) where
  open fl use {F, of_int, add, sub, div}
  open rand use {State}

  -- `for d := i; d < len(corpus); d += shards`: the documents before the next one are skipped.
  unfoldable pub sample_stride :
      ℕ → ℕ → List Document → Sampler F → State → Run (Sampler F × List Document × State)
  sample_stride step skip [] s rng = ok (s, [], rng)
  sample_stride step (suc skip) (d ∷ corpus) s rng =
      sample_stride step skip corpus s rng >>= λ (s', ds, rng'). ok (s', d ∷ ds, rng')
  sample_stride step zero (d ∷ corpus) s rng = sample go fl rand s d rng >>= λ (s₁, d₁, rng₁).
      sample_stride step (step - 1) corpus s₁ rng₁ >>= λ (s₂, ds, rng₂). ok (s₂, d₁ ∷ ds, rng₂)

  -- The goroutine of shard `i`: its sampler works on a clone of the model and on its diff.
  unfoldable pub sample_shard :
      Model F
      → Bool
      → ℤ
      → State
      → ℤ
      → List Document × List (Model F)
      → Run (List Document × List (Model F))
  unfolding sample_stride
  sample_shard m optimized shards rng i (corpus, diffs) = clone go fl m >>= λ local.
      new_sampler go fl local >>= λ s. load_at diffs i >>= λ diff.
      (if optimized
        then after_optimization go fl (set_diff s (some diff))
        else ok (set_diff s (some diff)))
      >>= λ s₁. or_panic (to_index shards) >>= λ step. or_panic (to_index i) >>= λ first.
          sample_stride step first corpus s₁ rng >>= λ (s₂, corpus', _).
          or_panic (get_diff s₂) >>= λ diff'.
          store_at diffs i diff' >>= λ diffs'. ok (corpus', diffs')

  -- The loop that makes the diffs.
  unfoldable pub new_diffs : ℕ → MultiFlags F → ℤ → Run (List (Model F))
  new_diffs zero flags vocab = ok []
  new_diffs (suc n) flags vocab =
      new_model go fl flags.flags.topics vocab flags.alpha flags.beta >>= λ m.
      new_diffs n flags vocab >>= λ ms. ok (m ∷ ms)

  -- The loop that adds the diffs to the model.
  unfoldable pub add_diffs : List (Model F) → Model F → Run (Model F)
  add_diffs [] m = ok m
  add_diffs (diff ∷ diffs) m = new_sharder (pos 1) >>= λ sharder.
      shard_model sharder diff.word_topic_hists >>= λ buckets. load_at buckets (pos 0) >>= λ bucket.
      accumulate go m (elim bucket [ some hists ↦ hists | none ↦ [] ]) >>= add_diffs diffs

  -- The loop over the corpus for the optimizer.
  unfoldable pub collect_corpus : List Document → Optimizer → Run Optimizer
  collect_corpus [] o = ok o
  collect_corpus (d ∷ corpus) o = collect_document_statistics o d >>= collect_corpus corpus

  -- The optimisation of the priors, behind the test of the iteration.
  unfoldable pub optimize_model : Flags F → Bool → List Document → Model F → Run (Model F)
  unfolding collect_corpus
  optimize_model flags false corpus m = ok m
  optimize_model flags true corpus m = new_optimizer flags.topics >>= λ o.
      collect_corpus corpus o >>= λ o'.
      optimize_topic_priors go fl o' m flags.shape flags.scale flags.optim_iter

  module _ (parallel_for : Parallel) (exp log : F → F) where
    -- `for d := i; d < len(corpus); d += shards` over the perplexities of a shard.
    unfoldable pub perplexity_stride :
        ℕ → ℕ → List Document → Evaluator F → F → ℤ → Run (F × ℤ × Evaluator F)
    perplexity_stride step skip [] e logl words = ok (logl, words, e)
    perplexity_stride step (suc skip) (d ∷ corpus) e logl words =
        perplexity_stride step skip corpus e logl words
    perplexity_stride step zero (d ∷ corpus) e logl words =
        perplexity go fl log e d >>= λ ((ll, n), e').
        perplexity_stride step (step - 1) corpus e' (add logl ll) (add64 words n)

    -- The goroutine that evaluates shard `i` and adds its sums to the shared ones.
    unfoldable pub evaluate_shard :
        List Document → ℤ → ℤ → F × ℤ × Evaluator F → Run (F × ℤ × Evaluator F)
    unfolding perplexity_stride
    evaluate_shard corpus shards i (logl, words, e) = or_panic (to_index shards) >>= λ step.
        or_panic (to_index i) >>= λ first.
        perplexity_stride step first corpus e (of_int (pos 0)) (pos 0) >>= λ (ll, n, e').
        ok (add logl ll, add64 words n, e')

    -- The perplexity that an iteration reports; zero in the other iterations.
    unfoldable pub evaluate_shards : Flags F → Bool → ℤ → Model F → List Document → Run F
    unfolding evaluate_shard
    evaluate_shards flags false shards m corpus = ok (of_int (pos 0))
    evaluate_shards flags true shards m corpus = new_sampler go fl m >>= λ s.
        new_evaluator go fl heap m flags.cache (some s) >>= λ e.
        parallel_for (F × ℤ × Evaluator F) (pos 0) shards (pos 1) (evaluate_shard corpus shards)
          (of_int (pos 0), pos 0, e)
        >>= λ (logl, words, _). ok (perplexity_of go heap fl rand exp log logl words)

    -- An iteration: the model and the documents after it, and its perplexity.
    unfoldable pub shard_iteration :
        MultiFlags F
        → ℤ
        → ℤ
        → State
        → ℕ
        → Model F
        → List Document
        → Run (Model F × List Document × F)
    unfolding sample_shard new_diffs add_diffs optimize_model evaluate_shards
    shard_iteration flags vocab shards seed iter m corpus =
        let optimized = ltb_ℤ flags.flags.optim_start (pos iter) in
        or_panic (to_index shards) >>= λ n. new_diffs n flags vocab >>= λ diffs.
        parallel_for (List Document × List (Model F)) (pos 0) shards (pos 1)
          (sample_shard m optimized shards seed) (corpus, diffs)
        >>= λ (corpus₁, diffs₁). add_diffs diffs₁ m >>= λ m₁.
            optimize_model flags.flags optimized corpus₁ m₁ >>= λ m₂.
            is_eval_time iter flags.flags.eval_lag >>= λ evaluates.
            evaluate_shards flags.flags evaluates shards m₂ corpus₁ >>= λ p. ok (m₂, corpus₁, p)

    -- The loop of main over that many iterations from `iter` on; `seed` is the source of each shard.
    unfoldable pub train_shards_loop :
        (ℕ → Bool)
        → MultiFlags F
        → ℤ
        → ℤ
        → State
        → ℕ
        → ℕ
        → Model F
        → List Document
        → Run (Model F × List Document)
    unfolding shard_iteration
    train_shards_loop interrupted flags vocab shards seed zero iter m corpus = ok (m, corpus)
    train_shards_loop interrupted flags vocab shards seed (suc n) iter m corpus =
        elim (interrupted iter) [
          | true ↦ ok (m, corpus)
          | false ↦ shard_iteration flags vocab shards seed iter m corpus >>= λ (m₁, corpus₁, _).
              train_shards_loop interrupted flags vocab shards seed n (suc iter) m₁ corpus₁
        ]

    -- main, from the initialized model on
    unfoldable pub train_shards :
        (ℕ → Bool)
        → MultiFlags F
        → ℤ
        → State
        → Model F
        → List Document
        → Run (Model F × List Document)
    unfolding train_shards_loop cap_shards
    train_shards interrupted flags vocab seed m corpus =
        train_shards_loop interrupted flags vocab (cap_shards flags.shards corpus) seed
          flags.flags.gibbs_iter 0 m corpus
