-- ===== src/Gibbs/Evaluator.antt =====
-- core/gibbs/evaluator.go: the log-likelihood of a document under a model, and the cache of
-- distributions of core/gibbs/interpreter.go that it reads. `math.Log` is a parameter.
use open_peacock.Prelude.{ℕ, suc, Option, none, some, List, [], ◌∷◌, if◌then◌else◌}
use open_peacock.Prelude.Int.{ℤ, pos, leb_ℤ}
use open_peacock.Prelude.Run.{Run, ok, ◌>>=◌}
use open_peacock.Map.{Map, lookup, insert}
use open_peacock.Runtime.{Runtime, Heaps}
use open_peacock.Float64.{Float64}
use open_peacock.Hist.Visit.{Visitor}
use open_peacock.Hist.Ordered
use open_peacock.Hist.Interface
use open_peacock.Hist.Interface.{Hist}
use open_peacock.Gibbs.Model.{Model}
use open_peacock.Gibbs.Document
use open_peacock.Gibbs.Document.{Document}
use open_peacock.Gibbs.Sampler.{Sampler, load_at}
use open_peacock.Gibbs.Accessor.{ModelAccessor, word_topic_dist, new_model_accessor}

-- The accessor belongs to the cache and to its owner.
pub record DistCache (F : Type 0) : Type 0 where
  pub accessor : ModelAccessor F
  pub cache : Map (List F)

-- newDistCache
abbrev pub new_dist_cache : {F : Type 0} → ModelAccessor F → DistCache F
new_dist_cache a = record { accessor = a; cache = [] }

pub record Evaluator (F : Type 0) : Type 0 where
  pub model : ModelAccessor F
  pub cached_coeff : List F

module _ (go : Runtime) (fl : Float64) where
  open fl use {F, of_int, add, mul, div}

  -- Get
  unfoldable pub get : DistCache F → ℤ → Run (List F × DistCache F)
  get c word = elim (lookup word c.cache) [
    | some dist ↦ ok (dist, c)
    | none ↦ word_topic_dist go fl c.accessor word >>= λ (dist, a).
        ok (dist, record { accessor = a; cache = insert word dist c.cache })
  ]

  -- The closure of calculateEvaluationCoeff, on the coefficient of one token.
  unfoldable pub add_coeff : {E : Type 0} → Model F → Visitor F E
  add_coeff m topic count coeff = load_at m.topic_prior topic >>= λ a.
      Interface.at m.global_topic_hist topic >>= λ n.
      ok (add coeff (div (mul a (of_int count)) (add m.word_prior (of_int n))), none)

  -- The loop over a distribution from topic `j` on.
  unfoldable pub sum_dist : List F → List F → ℕ → F → Run F
  sum_dist priors [] j sum = ok sum
  sum_dist priors (x ∷ dist) j sum =
      load_at priors (pos j) >>= λ a. sum_dist priors dist (suc j) (add sum (mul x a))

  -- The loop body of calculateEvaluationCoeff for a token with a histogram.
  unfoldable pub token_coeff :
      ModelAccessor F → Option (Sampler F) → ℤ → Hist → Run (F × ModelAccessor F)
  unfolding add_coeff sum_dist
  token_coeff a (some s) token h =
      Interface.for_each go {E = Unit {0}} (add_coeff a.model) h (of_int (pos 0)) >>= λ (c, _).
      ok (add c s.smoothing_only_bucket_size, a)
  token_coeff a none token h = word_topic_dist go fl a token >>= λ (dist, a').
      sum_dist a.model.topic_prior dist 0 (of_int (pos 0)) >>= λ c. ok (c, a')

  -- The loop over the tokens from `token` on: zero for a token without a histogram.
  unfoldable pub coeff_loop :
      ModelAccessor F → Option (Sampler F) → ℕ → List (Option Hist) → Run (List F × ModelAccessor F)
  unfolding token_coeff
  coeff_loop a s token [] = ok ([], a)
  coeff_loop a s token (none ∷ hists) =
      coeff_loop a s (suc token) hists >>= λ (cs, a'). ok (of_int (pos 0) ∷ cs, a')
  coeff_loop a s token (some h ∷ hists) = token_coeff a s (pos token) h >>= λ (c, a').
      coeff_loop a' s (suc token) hists >>= λ (cs, a''). ok (c ∷ cs, a'')

  -- calculateEvaluationCoeff
  unfoldable pub calculate_evaluation_coeff :
      ModelAccessor F → Option (Sampler F) → Run (List F × ModelAccessor F)
  unfolding coeff_loop
  calculate_evaluation_coeff a s = coeff_loop a s 0 a.model.word_topic_hists

  -- NewEvaluator
  unfoldable pub new_evaluator : Heaps → Model F → ℤ → Option (Sampler F) → Run (Evaluator F)
  unfolding calculate_evaluation_coeff
  new_evaluator heap m size s = new_model_accessor go fl heap m size >>= λ a.
      calculate_evaluation_coeff a s >>= λ (coeff, a').
      ok (record { model = a'; cached_coeff = coeff })

  -- The closure of Perplexity.
  unfoldable pub add_prob : {E : Type 0} → List F → Visitor F E
  add_prob dist topic count prob =
      load_at dist topic >>= λ x. ok (add prob (mul x (of_int count)), none)

  module _ (log : F → F) where
    -- The loop of Perplexity over the words.
    unfoldable pub perplexity_loop :
        Evaluator F → Document → List ℤ → DistCache F → F → Run (F × DistCache F)
    unfolding get add_prob
    perplexity_loop e d [] cache logl = ok (logl, cache)
    perplexity_loop e d (w ∷ words) cache logl = get cache w >>= λ (dist, cache').
        Ordered.for_each {E = Unit {0}} (add_prob dist) d.topic_hist (of_int (pos 0))
        >>= λ (prob, _). load_at e.cached_coeff w >>= λ c. perplexity_loop e d words cache' (
            add logl (
              log (div (add c prob) (add (of_int (Document.len d)) e.model.model.topic_prior_sum))))

    -- Perplexity: the log-likelihood and the length. The accessor may have kept its smoothing.
    unfoldable pub perplexity : Evaluator F → Document → Run ((F × ℤ) × Evaluator F)
    unfolding perplexity_loop
    perplexity e d =
        if leb_ℤ (Document.len d) (pos 0)
        then ok ((of_int (pos 0), pos 0), e)
        else (perplexity_loop e d d.words (new_dist_cache e.model) (of_int (pos 0))
            >>= λ (logl, cache). ok ((logl, Document.len d), record e { model = cache.accessor }))
