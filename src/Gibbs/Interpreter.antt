-- ===== src/Gibbs/Interpreter.antt =====
-- core/gibbs/interpreter.go: the topic distribution of a text under a fixed model. The source of
-- random numbers that the hash of the words seeds is a parameter.
pub mod Consistency
pub mod Empty
use open_peacock.Prelude.{
  ℕ, zero, suc, Bool, true, false, ◌⊎◌, inl, inr, Option, none, some, List, [], ◌∷◌, ◌++◌, length,
  replicate, String, if◌then◌else◌,
}
use open_peacock.Prelude.Int.{ℤ, pos, negsuc, ◌-ℤ◌, leb_ℤ, ltb_ℤ, to_index}
use open_peacock.Prelude.Word.{int32}
use open_peacock.Prelude.Run.{Run, ok, panic, ◌>>=◌, ◌>>◌, panic_if}
use open_peacock.Runtime.{Runtime, Heaps}
use open_peacock.Float64.{Float64, Rand}
use open_peacock.Hist.Visit.{Visitor}
use open_peacock.Hist.Ordered
use open_peacock.Hist.Ordered.{OrderedSparse}
use open_peacock.Hist.Sparse
use open_peacock.Hist.Sparse.{Sparse, new_sparse}
use open_peacock.Gibbs.Model.{Model, num_topics, vocab_size}
use open_peacock.Gibbs.Document
use open_peacock.Gibbs.Document.{Document, initialize_document}
use open_peacock.Gibbs.Sampler.{load_at, store_at}
use open_peacock.Gibbs.Vocab.{Vocabulary, id}
use open_peacock.Gibbs.Accessor.{ModelAccessor, word_topic_dist, new_model_accessor}
use open_peacock.Gibbs.Evaluator.{DistCache, new_dist_cache, get}

pub record Interpreter (F : Type 0) : Type 0 where
  pub model : ModelAccessor F
  pub vocab : Vocabulary
  pub smoothing_only_sum : List F

-- Prob, and SparseDist is a list of it.
pub record Prob (F : Type 0) : Type 0 where
  pub topic : ℤ
  pub prob : F

-- The error ErrEmptyDoc
pub data InterpretError : Type 0 where
  empty_doc : InterpretError

-- The closure over the topics of the document after an iteration: the accumulated histogram and the
-- norm.
unfoldable pub accumulate_topic : (fl : Float64) → {E : Type 0} → Visitor (Sparse × Float64.F fl) E
accumulate_topic fl topic count (acc, norm) =
    Sparse.inc acc topic count >>= λ acc'. ok ((acc', fl.add norm (fl.of_int count)), none)

module _ (go : Runtime) (fl : Float64) where
  open fl use {F, of_int, add, sub, mul, div, lt, le}

  -- SparseDist.Less
  unfoldable pub less_prob : Prob F → Prob F → Bool
  less_prob a b = lt b.prob a.prob

  -- The loop of computeWordTopicPriorSum over a distribution from `topic` on.
  unfoldable pub prior_sum : List F → List F → ℕ → F → Run F
  prior_sum priors [] topic sum = ok sum
  prior_sum priors (x ∷ dist) topic sum =
      load_at priors (pos topic) >>= λ a. prior_sum priors dist (suc topic) (add sum (mul a x))

  -- The loop over that many words from `word` on.
  unfoldable pub prior_sums : ℕ → ℕ → ModelAccessor F → Run (List F × ModelAccessor F)
  unfolding prior_sum
  prior_sums zero word a = ok ([], a)
  prior_sums (suc n) word a = word_topic_dist go fl a (pos word) >>= λ (dist, a').
      prior_sum a'.model.topic_prior dist 0 (of_int (pos 0)) >>= λ sum.
      prior_sums n (suc word) a' >>= λ (sums, a''). ok (sum ∷ sums, a'')

  -- computeWordTopicPriorSum
  unfoldable pub compute_word_topic_prior_sum : ModelAccessor F → Run (List F × ModelAccessor F)
  unfolding prior_sums
  compute_word_topic_prior_sum a = prior_sums (length a.model.word_topic_hists) 0 a

  -- NewInterpreter
  unfoldable pub new_interpreter : Heaps → Model F → Vocabulary → ℤ → Run (Interpreter F)
  unfolding compute_word_topic_prior_sum
  new_interpreter heap m v size = new_model_accessor go fl heap m size >>= λ a.
      compute_word_topic_prior_sum a >>= λ (sums, a').
      ok (record { model = a'; vocab = v; smoothing_only_sum = sums })

  -- The closure of calculateDocumentTopicBucket.
  unfoldable pub add_topic : {E : Type 0} → List F → Visitor (List (Prob F) × F) E
  add_topic smoothing topic count (bucket, sum) = load_at smoothing topic >>= λ x.
      let p = mul (of_int count) x in
      ok ((bucket ++ record { topic = int32 topic; prob = p } ∷ [], add sum p), none)

  -- calculateDocumentTopicBucket
  unfoldable pub calculate_document_topic_bucket : Document → List F → Run (List (Prob F) × F)
  unfolding add_topic
  calculate_document_topic_bucket d smoothing =
      Ordered.for_each {E = Unit {0}} (add_topic smoothing) d.topic_hist ([], of_int (pos 0))
      >>= λ (bucket, _). ok bucket

  -- The loop of sampleTopic over the bucket of the document.
  unfoldable pub pick_bucket : List (Prob F) → F → ℤ → ℤ
  pick_bucket [] sample new_topic = new_topic
  pick_bucket (p ∷ bucket) sample new_topic = elim (le (sub sample p.prob) (of_int (pos 0))) [
    | true ↦ p.topic
    | false ↦ pick_bucket bucket (sub sample p.prob) new_topic
  ]

  -- The loop over the smoothing distribution and the priors from `i` on: past the end it panics.
  unfoldable pub pick_prior : List F → List F → F → ℕ → Run ℕ
  pick_prior [] priors sample i = panic
  pick_prior (x ∷ smoothing) [] sample i = panic
  pick_prior (x ∷ smoothing) (a ∷ priors) sample i =
      elim (lt (of_int (pos 0)) (sub sample (mul x a))) [
        | true ↦ pick_prior smoothing priors (sub sample (mul x a)) (suc i)
        | false ↦ ok i
      ]

  -- The topic of a sample: from the bucket of the document, or from the smoothing.
  unfoldable pub pick_topic : Interpreter F → List (Prob F) → F → List F → F → Run ℤ
  unfolding pick_bucket pick_prior
  pick_topic intr bucket sum smoothing sample =
      if lt sample sum then ok (pick_bucket bucket sample (negsuc 0)) else (do
        i ← pick_prior smoothing intr.model.model.topic_prior (sub sample sum) 0
        panic_if (leb_ℤ (num_topics intr.model.model) (pos i))
        ok (int32 (pos i)))

  module _ (rand : Rand F) where
    open rand use {State, float64}

    -- sampleTopic
    unfoldable pub sample_topic : Interpreter F → Document → ℤ → List F → State → Run (ℤ × State)
    unfolding calculate_document_topic_bucket pick_topic
    sample_topic intr d word smoothing rng = do
      (bucket, sum) ← calculate_document_topic_bucket d smoothing
      let (u, rng') = float64 rng
      prior ← load_at intr.smoothing_only_sum word
      new_topic ← pick_topic intr bucket sum smoothing (mul u (add sum prior))
      panic_if (ltb_ℤ new_topic (pos 0))
      ok (new_topic, rng')

    -- The loop of an iteration over the words and their topics. The fields of `doc` that the calls
    -- read are its histogram; the last component is the new topics.
    unfoldable pub interpret_words :
        Interpreter F
        → List ℤ
        → List ℤ
        → Document
        → DistCache F
        → State
        → Run (Document × DistCache F × State × List ℤ)
    unfolding sample_topic
    interpret_words intr [] topics d cache rng = ok (d, cache, rng, topics)
    interpret_words intr (w ∷ words) [] d cache rng = panic
    interpret_words intr (w ∷ words) (t ∷ topics) d cache rng =
        Ordered.dec d.topic_hist t (pos 1) >>= λ h. get go fl cache w >>= λ (dist, cache').
        sample_topic intr (record d { topic_hist = h }) w dist rng >>= λ (t', rng').
        Ordered.inc h t' (pos 1) >>= λ h'.
        interpret_words intr words topics (record d { topic_hist = h' }) cache' rng'
        >>= λ (d', cache'', rng'', ts). ok (d', cache'', rng'', t' ∷ ts)

    -- One iteration over the document.
    unfoldable pub interpret_round :
        Interpreter F → Document → DistCache F → State → Run (Document × DistCache F × State)
    unfolding interpret_words
    interpret_round intr d cache rng =
        interpret_words intr d.words d.topics d cache rng >>= λ (d', cache', rng', topics).
        ok (record d' { topics = topics }, cache', rng')

    -- `if i > burnin { … }`
    unfoldable pub accumulate_round : Bool → OrderedSparse → Sparse × F → Run (Sparse × F)
    accumulate_round true h acc =
        Ordered.for_each {E = Unit {0}} (accumulate_topic fl) h acc >>= λ (acc', _). ok acc'
    accumulate_round false h acc = ok acc

    -- The loop of Interpret over that many iterations from `i` on.
    unfoldable pub interpret_rounds :
        Interpreter F → ℤ → ℕ → ℕ → Document → DistCache F → State → Sparse × F → Run (Sparse × F)
    unfolding interpret_round accumulate_round
    interpret_rounds intr burnin zero i d cache rng acc = ok acc
    interpret_rounds intr burnin (suc n) i d cache rng acc =
        interpret_round intr d cache rng >>= λ (d', cache', rng').
        accumulate_round (ltb_ℤ burnin (pos i)) d'.topic_hist acc >>= λ acc'.
        interpret_rounds intr burnin n (suc i) d' cache' rng' acc'

    -- The closure that fills the distribution, by index or by append alike.
    unfoldable pub add_prob_of : {E : Type 0} → F → Visitor (List (Prob F)) E
    add_prob_of norm topic count dist =
        ok (dist ++ record { topic = int32 topic; prob = div (of_int count) norm } ∷ [], none)

    -- Interpret. An `iter` that is not above `burnin` panics, so it is positive unless both are
    -- negative; a loop up to a negative bound does nothing.
    unfoldable pub interpret :
        (List String → State)
        → Interpreter F
        → List String
        → ℤ
        → ℤ
        → Run (InterpretError ⊎ List (Prob F))
    unfolding interpret_rounds add_prob_of less_prob
    interpret source intr words burnin iter =
        panic_if (leb_ℤ iter burnin)
        >> (initialize_document rand words (λ t. (id intr.vocab t).0) (num_topics intr.model.model)
              (source words)
            >>= λ (d, rng).
                if leb_ℤ (Document.len d) (pos 0)
                then ok (inl empty_doc)
                else (interpret_rounds intr burnin (rounds iter) 0 d (new_dist_cache intr.model) rng
                      (new_sparse, of_int (pos 0))
                    >>= λ (acc, norm).
                        Sparse.for_each go {E = Unit {0}} (add_prob_of norm) acc [] >>= λ (dist, _).
                        ok (inr (go.sort (Prob F) less_prob dist))))
      where
        rounds : ℤ → ℕ
        rounds (pos n) = n
        rounds (negsuc n) = 0
