-- ===== src/Gibbs/Model.antt =====
-- core/gibbs/model.go: the global topic histogram, the topic histograms of the words and the priors.
-- A histogram is a reference in the code: an operation that changes one is followed by a write-back.
pub mod Counts
use open_peacock.Prelude.{
  ℕ, Option, none, some, List, [], ◌∷◌, length, get_elem?, set, replicate, take, if◌then◌else◌, suc,
}
use open_peacock.Prelude.Int.{ℤ, pos, negsuc, ltb_ℤ, leb_ℤ, eqb_ℤ, to_index}
use open_peacock.Prelude.Word.{add64, sub64}
use open_peacock.Prelude.Run.{Run, ok, panic, ◌>>=◌, ◌>>◌, panic_if, or_panic}
use open_peacock.Map.{Map}
use open_peacock.Runtime.{Runtime}
use open_peacock.Float64.{Float64}
use open_peacock.Hist.Visit.{Visitor}
use open_peacock.Hist.Dense
use open_peacock.Hist.Sparse
use open_peacock.Hist.Sparse.{Sparse, new_sparse}
use open_peacock.Hist.Ordered.{OrderedSparse}
use open_peacock.Hist.Interface
use open_peacock.Hist.Interface.{Hist, dense, sparse, ordered}
use open_peacock.Hist.Convert.{assign}

-- Model over a type of floats. A word with no histogram yet has `none`, for nil.
pub record Model (F : Type 0) : Type 0 where
  pub global_topic_hist : Hist
  pub word_topic_hists : List (Option Hist)
  pub topic_prior : List F
  pub topic_prior_sum : F
  pub word_prior : F
  pub word_prior_sum : F

module _ {F : Type 0} where
  -- NumTopics
  unfoldable pub num_topics : Model F → ℤ
  num_topics m = Interface.len m.global_topic_hist

  -- VocabSize: the capacity of the slice is its length, as NewModel makes it.
  unfoldable pub vocab_size : Model F → ℤ
  vocab_size m = pos (length m.word_topic_hists)

  -- `m.WordTopicHists[token]`
  unfoldable pub word_entry : Model F → ℤ → Run (Option Hist)
  word_entry m token = do i ← or_panic (to_index token); or_panic (get_elem? m.word_topic_hists i)

  -- `m.WordTopicHists[token] = h`, after a read at the same index
  unfoldable pub put_word : Model F → ℤ → Option Hist → Model F
  put_word m (pos i) h = record m { word_topic_hists = set m.word_topic_hists i h }
  put_word m (negsuc _) h = m

  unfoldable pub put_global : Model F → Hist → Model F
  put_global m h = record m { global_topic_hist = h }

  -- WordTopicHist: a missing histogram is created.
  unfoldable pub word_topic_hist : Model F → ℤ → Run (Hist × Model F)
  word_topic_hist m token = word_entry m token >>= λ e. elim e [
    | some h ↦ ok (h, m)
    | none ↦ ok (sparse new_sparse, put_word m token (some (sparse new_sparse)))
  ]

  -- `m.WordTopicHist(token).Inc(t, c)` and `m.GlobalTopicHist.Inc(t, c)`
  unfoldable pub inc_word : Model F → ℤ → ℤ → ℤ → Run (Model F)
  inc_word m token t c = do
    (h, m') ← word_topic_hist m token
    h' ← Interface.inc h t c
    ok (put_word m' token (some h'))

  unfoldable pub inc_global : Model F → ℤ → ℤ → Run (Model F)
  inc_global m t c = do h ← Interface.inc m.global_topic_hist t c; ok (put_global m h)

  unfoldable pub dec_word : Model F → ℤ → ℤ → ℤ → Run (Model F)
  dec_word m token t c = do
    (h, m') ← word_topic_hist m token
    h' ← Interface.dec h t c
    ok (put_word m' token (some h'))

  unfoldable pub dec_global : Model F → ℤ → ℤ → Run (Model F)
  dec_global m t c = do h ← Interface.dec m.global_topic_hist t c; ok (put_global m h)

-- The closures of Accumulate: `if c > 0 { d.Inc(t, int(c)) } else if c < 0 { d.Dec(t, int(-c)) }`.
unfoldable pub inc_or_dec : Hist → ℤ → ℤ → Run Hist
inc_or_dec d t c =
    if ltb_ℤ (pos 0) c
    then Interface.inc d t c
    else if ltb_ℤ c (pos 0)
    then Interface.dec d t (sub64 (pos 0) c)
    else ok d

unfoldable pub absorb : {E : Type 0} → Visitor Hist E
unfolding inc_or_dec
absorb t c d = inc_or_dec d t c >>= λ d'. ok (d', none)

-- The closure of GetTopWords for one word.
unfoldable pub count_word : {E : Type 0} → ℤ → ℤ → Visitor Sparse E
count_word topic word t c h =
    if eqb_ℤ t topic then (Sparse.inc h word c >>= λ h'. ok (h', none)) else ok (h, none)

module _ (go : Runtime) where
  unfoldable pub clone_words : List (Option Hist) → Run (List (Option Hist))
  clone_words [] = ok []
  clone_words (none ∷ hs) = clone_words hs >>= λ rest. ok (none ∷ rest)
  clone_words (some h ∷ hs) =
      Interface.clone go h >>= λ h'. clone_words hs >>= λ rest. ok (some h' ∷ rest)

  unfoldable pub top_words : ℤ → ℕ → List (Option Hist) → Sparse → Run Sparse
  top_words topic word [] acc = ok acc
  top_words topic word (none ∷ hs) acc = top_words topic (suc word) hs acc
  top_words topic word (some h ∷ hs) acc =
      Interface.for_each go {E = Unit {0}} (count_word topic (pos word)) h acc >>= λ (acc', _).
      top_words topic (suc word) hs acc'

  module _ {F : Type 0} where
    -- The loop body of Accumulate for the word `w` with histogram `h`.
    unfoldable pub accumulate_word : Model F → ℤ → Hist → Run (Model F)
    accumulate_word m w h = do
      e ← word_entry m w
      m' ← elim e [
        | none ↦ ok (put_word m w (some h))
        | some d ↦ Interface.for_each go {E = Unit {0}} absorb h d >>= λ (d', _).
            ok (put_word m w (some d'))
      ]
      Interface.for_each go {E = Unit {0}} absorb h m'.global_topic_hist >>= λ (g, _).
          ok (put_global m' g)

    unfoldable pub accumulate_words : Map Hist → Model F → Run (Model F)
    accumulate_words [] m = ok m
    accumulate_words ((w, h) ∷ hists) m = accumulate_word m w h >>= accumulate_words hists

    -- Accumulate
    unfoldable pub accumulate : Model F → Map Hist → Run (Model F)
    accumulate m hists = accumulate_words (go.range Hist hists) m

    -- GetTopWords: `none` is the nil histogram.
    unfoldable pub get_top_words : Model F → ℤ → Run (Option OrderedSparse)
    get_top_words m topic = top_words topic 0 m.word_topic_hists new_sparse >>= λ words.
        elim words [ [] ↦ ok none | e ∷ es ↦ assign go (sparse (e ∷ es)) >>= λ o. ok (some o) ]

-- The part of Model that computes with floats.
module _ (go : Runtime) (fl : Float64) where
  open fl use {F, of_int, to_int, mul, le}

  -- NewModel
  unfoldable pub new_model : ℤ → ℤ → F → F → Run (Model F)
  new_model topics vocab prior word_prior = do
    panic_if (ltb_ℤ topics (pos 2))
    panic_if (ltb_ℤ vocab (pos 2))
    panic_if (le prior (of_int (pos 0)))
    panic_if (le word_prior (of_int (pos 0)))
    hist ← Dense.new_dense topics
    k ← or_panic (to_index topics)
    v ← or_panic (to_index vocab)
    ok (record {
      global_topic_hist = dense hist;
      word_topic_hists = replicate v none;
      topic_prior = replicate k prior;
      topic_prior_sum = mul prior (of_int topics);
      word_prior = word_prior;
      word_prior_sum = mul word_prior (of_int vocab);
    })

  -- The type assertion `h.(hist.Dense)`.
  unfoldable pub as_dense : Hist → Run Dense.Dense
  as_dense (dense d) = ok d
  as_dense (sparse s) = panic
  as_dense (ordered o) = panic

  -- Clone
  unfoldable pub clone : Model F → Run (Model F)
  unfolding as_dense
  clone m = do
    n ← new_model (num_topics m) (vocab_size m) (of_int (pos 1)) (of_int (pos 1))
    dst ← as_dense n.global_topic_hist
    src ← as_dense m.global_topic_hist
    words ← clone_words go m.word_topic_hists
    ok (record {
      global_topic_hist = dense (Dense.copy dst src);
      word_topic_hists = words;
      topic_prior = Dense.copy n.topic_prior m.topic_prior;
      topic_prior_sum = m.topic_prior_sum;
      word_prior = m.word_prior;
      word_prior_sum = m.word_prior_sum;
    })

  -- The loop of GetTopNWords: cut where the accumulated weight reaches the threshold.
  unfoldable pub cut_at : ℤ → ℕ → List ℤ → ℤ → OrderedSparse → OrderedSparse
  cut_at threshold i [] accum h = h
  cut_at threshold i (c ∷ counts) accum h =
      let rest = cut_at threshold (suc i) counts (add64 accum c) h in
      if leb_ℤ threshold (add64 accum c)
      then record { topics = take (suc i) h.topics; counts = take (suc i) h.counts }
      else rest

  -- GetTopNWords
  unfoldable pub get_top_n_words : Model F → ℤ → F → Run (Option OrderedSparse)
  get_top_n_words m topic percentage = get_top_words go m topic >>= λ top. elim top [
    | none ↦ ok none
    | some h ↦ Interface.at m.global_topic_hist topic >>= λ n.
        ok (some (cut_at (to_int (mul (of_int n) percentage)) 0 h.counts (pos 0) h))
  ]
