-- ===== src/Gibbs/Sampler.antt =====
-- core/gibbs/sampler.go: SparseLDA sampling with cached buckets and coefficients.
pub mod Access
pub mod Step
pub mod Counts
pub mod Range
pub mod Consistency
use open_peacock.Prelude.{
  ℕ, zero, suc, ◌+◌, Bool, true, false, Option, none, some, List, [], ◌∷◌, length, get_elem?, set,
  replicate, if◌then◌else◌, ltb,
}
use open_peacock.Prelude.Int.{ℤ, pos, negsuc, leb_ℤ, ltb_ℤ, to_index}
use open_peacock.Prelude.Run.{Run, ok, panic, fatal, ◌>>=◌, ◌>>◌, panic_if, fatal_if, or_panic}
use open_peacock.Runtime.{Runtime}
use open_peacock.Float64.{Float64, Rand}
use open_peacock.Hist.Visit.{Visitor}
use open_peacock.Hist.Ordered
use open_peacock.Hist.Ordered.{OrderedSparse}
use open_peacock.Hist.Interface
use open_peacock.Gibbs.Model.{
  Model, num_topics, word_topic_hist, inc_word, inc_global, dec_word, dec_global,
}
use open_peacock.Gibbs.Document.{Document}

-- The sampler owns its caches; the model, the diff and the document are references, passed along.
pub record Sampler (F : Type 0) : Type 0 where
  pub model : Model F
  pub diff : Option (Model F)
  pub smoothing_only_bucket_size : F
  pub smoothing_only_bucket_factors : List F
  pub document_topic_bucket_size : F
  pub document_topic_bucket_factors : List F
  pub topic_word_bucket_size : F
  pub topic_word_bucket_factors : List F
  pub coefficients : List F

-- `xs[i]` and `xs[i] = v` at an integer index
unfoldable pub load_at : {A : Type 0} → List A → ℤ → Run A
load_at xs t = do i ← or_panic (to_index t); or_panic (get_elem? xs i)

unfoldable pub store_at : {A : Type 0} → List A → ℤ → A → Run (List A)
unfolding load_at
store_at xs (pos i) v = load_at xs (pos i) >>= λ _. ok (set xs i v)
store_at xs (negsuc _) v = panic

module _ {F : Type 0} where
  -- SetDiff and GetDiff
  unfoldable pub set_diff : Sampler F → Option (Model F) → Sampler F
  set_diff s d = record s { diff = d }

  unfoldable pub get_diff : Sampler F → Option (Model F)
  get_diff s = s.diff

  -- The counts that neglectOrConsiderWord changes: the model's, the document's, and the diff's if
  -- there is one.
  unfoldable pub change_counts :
      Bool
      → Model F
      → Option (Model F)
      → OrderedSparse
      → ℤ
      → ℤ
      → Run (Model F × Option (Model F) × OrderedSparse)
  change_counts true m diff h token t = do
    m' ← dec_word m token t (pos 1)
    m'' ← dec_global m' t (pos 1)
    h' ← Ordered.dec h t (pos 1)
    elim diff [
      | none ↦ ok (m'', none, h')
      | some d ↦ dec_word d token t (pos 1) >>= λ d'.
          dec_global d' t (pos 1) >>= λ d''. ok (m'', some d'', h')
    ]
  change_counts false m diff h token t = do
    m' ← inc_word m token t (pos 1)
    m'' ← inc_global m' t (pos 1)
    h' ← Ordered.inc h t (pos 1)
    elim diff [
      | none ↦ ok (m'', none, h')
      | some d ↦ inc_word d token t (pos 1) >>= λ d'.
          inc_global d' t (pos 1) >>= λ d''. ok (m'', some d'', h')
    ]

module _ (go : Runtime) (fl : Float64) where
  open fl use {F, of_int, add, sub, mul, div, lt, le}

  -- `m.WordPriorSum + float64(m.GlobalTopicHist.At(t))`
  unfoldable pub denominator : Model F → ℤ → Run F
  denominator m t = do n ← Interface.at m.global_topic_hist t; ok (add m.word_prior_sum (of_int n))

  -- The factor of topic `t` in the smoothing-only bucket, equation (7).
  unfoldable pub smoothing_factor : Model F → ℤ → Run F
  unfolding denominator
  smoothing_factor m t = do
    a ← load_at m.topic_prior t
    d ← denominator m t
    ok (div (mul a m.word_prior) d)

  -- The loop of buildSmoothingOnlyBucket over `count` topics from `t` on.
  unfoldable pub smoothing_loop : ℕ → ℕ → Sampler F → Run (Sampler F)
  smoothing_loop zero t s = ok s
  smoothing_loop (suc count) t s = smoothing_factor s.model (pos t) >>= λ x.
      store_at s.smoothing_only_bucket_factors (pos t) x >>= λ factors.
      smoothing_loop count (suc t) (record s {
        smoothing_only_bucket_factors = factors;
        smoothing_only_bucket_size = add s.smoothing_only_bucket_size x;
      })

  -- buildSmoothingOnlyBucket
  unfoldable pub build_smoothing_only_bucket : Sampler F → Run (Sampler F)
  build_smoothing_only_bucket s = do
    n ← or_panic (to_index (num_topics s.model))
    smoothing_loop n 0 (record s {
      smoothing_only_bucket_size = of_int (pos 0);
      smoothing_only_bucket_factors =
          replicate (length s.smoothing_only_bucket_factors) (of_int (pos 0));
    })

  -- The loop of buildDocumentTopicBucket over the document's topics.
  unfoldable pub document_loop : List ℤ → List ℤ → Sampler F → Run (Sampler F)
  document_loop [] counts s = ok s
  document_loop (t ∷ topics) [] s = panic
  document_loop (t ∷ topics) (c ∷ counts) s = denominator s.model t >>= λ d.
      let x = div (mul s.model.word_prior (of_int c)) d in
      store_at s.document_topic_bucket_factors t x >>= λ factors.
      document_loop topics counts (record s {
        document_topic_bucket_factors = factors;
        document_topic_bucket_size = add s.document_topic_bucket_size x;
      })

  -- buildDocumentTopicBucket
  unfoldable pub build_document_topic_bucket : Sampler F → OrderedSparse → Run (Sampler F)
  build_document_topic_bucket s h = document_loop h.topics h.counts (record s {
    document_topic_bucket_size = of_int (pos 0);
    document_topic_bucket_factors =
        replicate (length s.document_topic_bucket_factors) (of_int (pos 0));
  })

  -- The closure of buildTopicWordBucket.
  unfoldable pub add_topic_word : {E : Type 0} → Visitor (Sampler F) E
  add_topic_word t c s = do
    k ← load_at s.coefficients t
    let x = mul k (of_int c)
    factors ← store_at s.topic_word_bucket_factors t x
    ok (
      record s {
        topic_word_bucket_factors = factors;
        topic_word_bucket_size = add s.topic_word_bucket_size x;
      },
      none,
    )

  -- buildTopicWordBucket
  unfoldable pub build_topic_word_bucket : Sampler F → ℤ → Run (Sampler F)
  build_topic_word_bucket s token = do
    let cleared = record s {
      topic_word_bucket_size = of_int (pos 0);
      topic_word_bucket_factors = replicate (length s.topic_word_bucket_factors) (of_int (pos 0));
    }
    (h, m) ← word_topic_hist cleared.model token
    (s', _) ← Interface.for_each go {E = Unit {0}} add_topic_word h (record cleared { model = m })
    ok s'

  -- The loop of cacheCoefficients over `count` topics from `t` on.
  unfoldable pub cache_loop : ℕ → ℕ → Sampler F → Run (Sampler F)
  cache_loop zero t s = ok s
  cache_loop (suc count) t s = load_at s.model.topic_prior (pos t) >>= λ a.
      denominator s.model (pos t) >>= λ d. store_at s.coefficients (pos t) (div a d) >>= λ ks.
      cache_loop count (suc t) (record s { coefficients = ks })

  unfoldable pub cache_coefficients : Sampler F → Run (Sampler F)
  cache_coefficients s = do n ← or_panic (to_index (num_topics s.model)); cache_loop n 0 s

  -- The loop of updateCoefficients over the document's topics.
  unfoldable pub update_loop : List ℤ → List ℤ → Sampler F → Run (Sampler F)
  update_loop [] counts s = ok s
  update_loop (t ∷ topics) [] s = panic
  update_loop (t ∷ topics) (c ∷ counts) s = load_at s.model.topic_prior t >>= λ a.
      denominator s.model t >>= λ d. store_at s.coefficients t (div (add a (of_int c)) d) >>= λ ks.
      update_loop topics counts (record s { coefficients = ks })

  -- The loop of resetCoefficients over the document's topics.
  unfoldable pub reset_loop : List ℤ → Sampler F → Run (Sampler F)
  reset_loop [] s = ok s
  reset_loop (t ∷ topics) s = load_at s.model.topic_prior t >>= λ a. denominator s.model t >>= λ d.
      store_at s.coefficients t (div a d) >>= λ ks.
      reset_loop topics (record s { coefficients = ks })

  -- AfterOptimization
  unfoldable pub after_optimization : Sampler F → Run (Sampler F)
  after_optimization s = build_smoothing_only_bucket s >>= cache_coefficients

  -- NewSampler
  unfoldable pub new_sampler : Model F → Run (Sampler F)
  new_sampler m = do
    n ← or_panic (to_index (num_topics m))
    let zeros = replicate n (of_int (pos 0))
    s ← build_smoothing_only_bucket (record {
      model = m;
      diff = none;
      smoothing_only_bucket_size = of_int (pos 0);
      smoothing_only_bucket_factors = zeros;
      document_topic_bucket_size = of_int (pos 0);
      document_topic_bucket_factors = zeros;
      topic_word_bucket_size = of_int (pos 0);
      topic_word_bucket_factors = zeros;
      coefficients = zeros;
    })
    cache_coefficients s
