-- ===== src/Train/Single.antt =====
-- cmd/singlethread/singlethread.go: the training loop on one thread. The sampler owns the model, which
-- the optimizer and the evaluator share with it. The flags are fields of a record, and whether a
-- signal came before an iteration, and the exponential and the logarithm, are parameters.
use open_peacock.Prelude.{
  ℕ, zero, suc, ◌%◌, ◌==◌, Bool, true, false, some, List, [], ◌∷◌, if◌then◌else◌,
}
use open_peacock.Prelude.Int.{ℤ, pos, negsuc, ltb_ℤ}
use open_peacock.Prelude.Word.{add64}
use open_peacock.Prelude.Run.{Run, ok, panic, ◌>>=◌}
use open_peacock.Runtime.{Runtime, Heaps}
use open_peacock.Float64.{Float64, Rand}
use open_peacock.Gibbs.Model.{Model}
use open_peacock.Gibbs.Document.{Document}
use open_peacock.Gibbs.Sampler.{Sampler, after_optimization, new_sampler}
use open_peacock.Gibbs.Sampler.Step.{sample}
use open_peacock.Gibbs.Optimizer.{
  Optimizer, new_optimizer, collect_document_statistics, optimize_topic_priors,
}
use open_peacock.Gibbs.Evaluator.{Evaluator, new_evaluator, perplexity}

-- The flags that the loop reads; a number of iterations below zero is zero.
pub record Flags (F : Type 0) : Type 0 where
  pub topics : ℤ
  pub gibbs_iter : ℕ
  pub optim_start : ℤ
  pub shape : F
  pub scale : F
  pub optim_iter : ℕ
  pub cache : ℤ
  pub eval_lag : ℤ

-- `iter % lag == 0`, where zero as the divisor panics.
unfoldable pub is_eval_time : ℕ → ℤ → Run Bool
is_eval_time iter (pos zero) = panic
is_eval_time iter (pos (suc lag)) = ok ((iter % suc lag) == 0)
is_eval_time iter (negsuc lag) = ok ((iter % suc lag) == 0)

module _ (go : Runtime) (heap : Heaps) (fl : Float64) (rand : Rand (Float64.F fl)) where
  open fl use {F, of_int, add, sub, div}
  open rand use {State}

  -- The loop over the corpus; the documents are changed in place.
  unfoldable pub sample_corpus :
      Bool
      → List Document
      → Sampler F
      → Optimizer
      → State
      → Run (Sampler F × Optimizer × List Document × State)
  sample_corpus collects [] s o rng = ok (s, o, [], rng)
  sample_corpus collects (d ∷ corpus) s o rng = sample go fl rand s d rng >>= λ (s₁, d₁, rng₁).
      (if collects then collect_document_statistics o d₁ else ok o) >>= λ o₁.
      sample_corpus collects corpus s₁ o₁ rng₁ >>= λ (s₂, o₂, ds, rng₂). ok (s₂, o₂, d₁ ∷ ds, rng₂)

  -- The optimisation of the priors, behind the test of the iteration.
  unfoldable pub optimize : Flags F → Bool → Sampler F → Optimizer → Run (Sampler F)
  optimize flags false s o = ok s
  optimize flags true s o =
      optimize_topic_priors go fl o s.model flags.shape flags.scale flags.optim_iter >>= λ m.
      after_optimization go fl (record s { model = m })

  module _ (exp log : F → F) where
    -- The loop over the corpus that sums up the log-likelihoods and the lengths.
    unfoldable pub sum_perplexity : List Document → Evaluator F → F → ℤ → Run (F × ℤ × Evaluator F)
    sum_perplexity [] e logl words = ok (logl, words, e)
    sum_perplexity (d ∷ corpus) e logl words = perplexity go fl log e d >>= λ ((ll, n), e').
        sum_perplexity corpus e' (add logl ll) (add64 words n)

    -- `math.Exp(-logL / float64(nW))`
    unfoldable pub perplexity_of : F → ℤ → F
    perplexity_of logl words = exp (div (sub (of_int (pos 0)) logl) (of_int words))

    -- The perplexity that an iteration reports; zero in the other iterations.
    unfoldable pub evaluate : Flags F → Bool → Sampler F → List Document → Run F
    unfolding sum_perplexity perplexity_of
    evaluate flags false s corpus = ok (of_int (pos 0))
    evaluate flags true s corpus = new_evaluator go fl heap s.model flags.cache (some s) >>= λ e.
        sum_perplexity corpus e (of_int (pos 0)) (pos 0) >>= λ (logl, words, _).
        ok (perplexity_of logl words)

    -- An iteration: the sampler, the documents and the source after it, and its perplexity.
    unfoldable pub train_iteration :
        Flags F
        → ℕ
        → Sampler F
        → List Document
        → State
        → Run (Sampler F × List Document × State × F)
    unfolding sample_corpus optimize evaluate is_eval_time
    train_iteration flags iter s corpus rng = new_optimizer flags.topics >>= λ o.
        sample_corpus (ltb_ℤ flags.optim_start (pos iter)) corpus s o rng
        >>= λ (s₁, o₁, corpus₁, rng₁).
            optimize flags (ltb_ℤ flags.optim_start (pos iter)) s₁ o₁ >>= λ s₂.
            is_eval_time iter flags.eval_lag >>= λ evaluates.
            evaluate flags evaluates s₂ corpus₁ >>= λ p. ok (s₂, corpus₁, rng₁, p)

    -- The loop of main over that many iterations from `iter` on.
    unfoldable pub train_loop :
        (ℕ → Bool)
        → Flags F
        → ℕ
        → ℕ
        → Sampler F
        → List Document
        → State
        → Run (Sampler F × List Document × State)
    unfolding train_iteration
    train_loop interrupted flags zero iter s corpus rng = ok (s, corpus, rng)
    train_loop interrupted flags (suc n) iter s corpus rng = elim (interrupted iter) [
      | true ↦ ok (s, corpus, rng)
      | false ↦ train_iteration flags iter s corpus rng >>= λ (s₁, corpus₁, rng₁, _).
          train_loop interrupted flags n (suc iter) s₁ corpus₁ rng₁
    ]

    -- main, from the initialized model on
    unfoldable pub train :
        (ℕ → Bool) → Flags F → Model F → List Document → State → Run (Model F × List Document)
    unfolding train_loop
    train interrupted flags m corpus rng = new_sampler go fl m >>= λ s.
        train_loop interrupted flags flags.gibbs_iter 0 s corpus rng >>= λ (s', corpus', _).
        ok (s'.model, corpus')
