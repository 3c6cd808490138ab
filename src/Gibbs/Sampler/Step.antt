-- ===== src/Gibbs/Sampler/Step.antt =====
-- core/gibbs/sampler.go: one Gibbs step for a word, and the pass over a document.
use open_peacock.Prelude.{ℕ, suc, Bool, true, false, ◌||◌, none, some, List, [], ◌∷◌, if◌then◌else◌}
use open_peacock.Prelude.Int.{ℤ, pos, negsuc, leb_ℤ, ltb_ℤ}
use open_peacock.Prelude.Word.{int32}
use open_peacock.Prelude.Run.{Run, ok, panic, ◌>>=◌, ◌>>◌, fatal_if}
use open_peacock.Runtime.{Runtime}
use open_peacock.Float64.{Float64, Rand}
use open_peacock.Hist.Visit.{Visitor}
use open_peacock.Hist.Ordered
use open_peacock.Hist.Ordered.{OrderedSparse}
use open_peacock.Hist.Interface
use open_peacock.Gibbs.Model.{Model, num_topics, word_topic_hist}
use open_peacock.Gibbs.Document.{Document}
use open_peacock.Gibbs.Sampler.{
  Sampler, load_at, store_at, change_counts, denominator, smoothing_factor,
  build_document_topic_bucket, build_topic_word_bucket, update_loop, reset_loop,
}

module _ (go : Runtime) (fl : Float64) where
  open fl use {F, of_int, add, sub, mul, div, lt, le}

  -- The second half of neglectOrConsiderWord: the cached factors and the coefficient of the topic.
  unfoldable pub refresh : Sampler F → OrderedSparse → ℤ → Run (Sampler F)
  refresh s h t = do
    old_smoothing ← load_at s.smoothing_only_bucket_factors t
    old_document ← load_at s.document_topic_bucket_factors t
    n_dt ← Ordered.at h t
    d ← denominator go fl s.model t
    smoothing ← smoothing_factor go fl s.model t
    let document = div (mul (of_int n_dt) s.model.word_prior) d
    smoothing_factors ← store_at s.smoothing_only_bucket_factors t smoothing
    document_factors ← store_at s.document_topic_bucket_factors t document
    a ← load_at s.model.topic_prior t
    ks ← store_at s.coefficients t (div (add a (of_int n_dt)) d)
    ok (record s {
      smoothing_only_bucket_size = add (sub s.smoothing_only_bucket_size old_smoothing) smoothing;
      smoothing_only_bucket_factors = smoothing_factors;
      document_topic_bucket_size = add (sub s.document_topic_bucket_size old_document) document;
      document_topic_bucket_factors = document_factors;
      coefficients = ks;
    })

  -- neglectOrConsiderWord, on the histogram of the document.
  unfoldable pub neglect_or_consider_word :
      Sampler F → OrderedSparse → ℤ → ℤ → Bool → Run (Sampler F × OrderedSparse)
  neglect_or_consider_word s h token topic neglect = do
    (m, diff, h') ← change_counts neglect s.model s.diff h token topic
    s' ← refresh (record s { model = m; diff = diff }) h' topic
    ok (s', h')

  -- The closure of sampleNewTopic over the topics of the word; `some tt` is the error "break".
  unfoldable pub pick_topic_word : List F → Visitor (F × ℤ) (Unit {0})
  pick_topic_word factors topic _ (draw, new_topic) = do
    x ← load_at factors topic
    let left = sub draw x
    ok (
        if le left (of_int (pos 0))
        then ((left, int32 topic), some tt)
        else ((left, new_topic), none))

  -- The loop over the topics of the document.
  unfoldable pub pick_document : List F → List ℤ → F → ℤ → Run ℤ
  pick_document factors [] draw new_topic = ok new_topic
  pick_document factors (t ∷ topics) draw new_topic = load_at factors t >>= λ x.
      elim (le (sub draw x) (of_int (pos 0))) [
        | true ↦ ok t
        | false ↦ pick_document factors topics (sub draw x) new_topic
      ]

  -- `var i int32; draw -= factors[i]; for draw > 0 { i++; draw -= factors[i] }`: an index past the end
  -- panics.
  unfoldable pub pick_smoothing : List F → F → ℕ → Run ℤ
  pick_smoothing [] draw i = panic
  pick_smoothing (x ∷ factors) draw i = elim (lt (of_int (pos 0)) (sub draw x)) [
    | true ↦ pick_smoothing factors (sub draw x) (suc i)
    | false ↦ ok (int32 (pos i))
  ]

  -- The topic of a draw: from the bucket of the word, of the document, or of the smoothing.
  unfoldable pub choose_topic : Sampler F → OrderedSparse → ℤ → F → Run (ℤ × Model F)
  choose_topic s h token draw =
      if lt draw s.topic_word_bucket_size
      then (do
        (wh, m) ← word_topic_hist s.model token
        ((_, t), _) ←
            Interface.for_each go (pick_topic_word s.topic_word_bucket_factors) wh (draw, negsuc 0)
        ok (t, m))
      else (do
        let rest = sub draw s.topic_word_bucket_size
        t ←
            if lt rest s.document_topic_bucket_size
            then pick_document s.document_topic_bucket_factors h.topics rest (negsuc 0)
            else pick_smoothing s.smoothing_only_bucket_factors
                (sub rest s.document_topic_bucket_size) 0
        ok (t, s.model))

  module _ (rand : Rand F) where
    open rand use {State, float64}

    -- sampleNewTopic
    unfoldable pub sample_new_topic :
        Sampler F → OrderedSparse → ℤ → State → Run (ℤ × Model F × State)
    unfolding choose_topic
    sample_new_topic s h token rng = do
      let (u, rng') = float64 rng
      let norm =
          add (add s.smoothing_only_bucket_size s.document_topic_bucket_size)
            s.topic_word_bucket_size
      (new_topic, m) ← choose_topic s h token (mul u norm)
      fatal_if (ltb_ℤ new_topic (pos 0) || leb_ℤ (num_topics m) new_topic)
      ok (new_topic, m, rng')

    -- The loop of Sample over the words and their topics; the last component is the new topics.
    unfoldable pub sample_words :
        List ℤ
        → List ℤ
        → Sampler F
        → OrderedSparse
        → State
        → Run (Sampler F × OrderedSparse × State × List ℤ)
    sample_words [] topics s h rng = ok (s, h, rng, topics)
    sample_words (w ∷ words) [] s h rng = panic
    sample_words (w ∷ words) (t ∷ topics) s h rng =
        neglect_or_consider_word s h w t true >>= λ (s₁, h₁).
        build_topic_word_bucket go fl s₁ w >>= λ s₂.
        sample_new_topic s₂ h₁ w rng >>= λ (t', m, rng').
        neglect_or_consider_word (record s₂ { model = m }) h₁ w t' false >>= λ (s₃, h₂).
        sample_words words topics s₃ h₂ rng' >>= λ (s₄, h₃, rng'', ts). ok (s₄, h₃, rng'', t' ∷ ts)

    -- Sample
    unfoldable pub sample : Sampler F → Document → State → Run (Sampler F × Document × State)
    sample s doc rng = do
      s₁ ← build_document_topic_bucket go fl s doc.topic_hist
      s₂ ← update_loop go fl doc.topic_hist.topics doc.topic_hist.counts s₁
      (s₃, h, rng', topics) ← sample_words doc.words doc.topics s₂ doc.topic_hist rng
      s₄ ← reset_loop go fl h.topics s₃
      ok (s₄, record doc { topic_hist = h; topics = topics }, rng')
