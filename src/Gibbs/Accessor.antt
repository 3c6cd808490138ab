-- ===== src/Gibbs/Accessor.antt =====
-- core/gibbs/model_accessor.go: the topic distributions of the words, computed from a model and
-- cached for the most frequent words. `container/heap` is a parameter.
pub mod Heap
pub mod Select
pub mod Cache
use open_peacock.Prelude.{
  ℕ, zero, suc, ◌-◌, ◌++◌, take, Bool, true, false, Option, none, some, List, [], ◌∷◌, length,
  replicate, if◌then◌else◌,
}
use open_peacock.Prelude.Int.{ℤ, pos, negsuc, ◌-ℤ◌, leb_ℤ, ltb_ℤ, to_index}
use open_peacock.Prelude.Word.{add64, sub64, mul64, quot64}
use open_peacock.Prelude.Run.{Run, ok, panic, ◌>>=◌, ◌>>◌, or_panic}
use open_peacock.Runtime.{Runtime, Heaps, HeapMethods}
use open_peacock.Float64.{Float64}
use open_peacock.Hist.Visit.{Visitor}
use open_peacock.Hist.Dense
use open_peacock.Hist.Interface
use open_peacock.Hist.Interface.{Hist}
use open_peacock.Gibbs.Model.{Model, num_topics, vocab_size, word_entry}
use open_peacock.Gibbs.Sampler.{load_at, store_at}

-- A nil distribution is `none`; `smoothing_only` is empty before its first use.
pub record ModelAccessor (F : Type 0) : Type 0 where
  pub model : Model F
  pub word_topic_dists : List (Option (List F))
  pub smoothing_only : List F

pub record WordFreq : Type 0 where
  pub word : ℤ
  pub freq : ℤ

-- The methods of minHeap
unfoldable pub heap_len : List WordFreq → ℤ
heap_len h = pos (length h)

unfoldable pub heap_less : List WordFreq → ℤ → ℤ → Run Bool
heap_less h i j = do a ← load_at h i; b ← load_at h j; ok (ltb_ℤ a.freq b.freq)

unfoldable pub heap_swap : List WordFreq → ℤ → ℤ → Run (List WordFreq)
heap_swap h i j = do a ← load_at h j; b ← load_at h i; h' ← store_at h i a; store_at h' j b

unfoldable pub heap_push : WordFreq → List WordFreq → List WordFreq
heap_push x h = h ++ x ∷ []

unfoldable pub heap_pop : List WordFreq → Run (WordFreq × List WordFreq)
heap_pop old = do x ← load_at old (pos (length old) -ℤ pos 1); ok (x, take (length old - 1) old)

-- minHeap
abbrev pub min_heap : HeapMethods WordFreq
min_heap = record {
  len = heap_len;
  less_at = heap_less;
  swap_at = heap_swap;
  push = heap_push;
  pop = heap_pop;
}

-- The closure that sums up the counts of a word.
unfoldable pub add_count : {E : Type 0} → Visitor ℤ E
add_count t c freq = ok (add64 freq c, none)

module _ (go : Runtime) where
  -- The frequency of a word: zero without a histogram.
  unfoldable pub word_freq : Option Hist → Run ℤ
  word_freq none = ok (pos 0)
  word_freq (some h) =
      Interface.for_each go {E = Unit {0}} add_count h (pos 0) >>= λ (freq, _). ok freq

  module _ (heap : Heaps) where
    open heap use {push, pop}

    -- The body of the loop over the words.
    unfoldable pub keep_frequent : ℤ → WordFreq → List WordFreq → Run (List WordFreq)
    keep_frequent cached wf h =
        if ltb_ℤ (pos (length h)) cached
        then push WordFreq min_heap wf h
        else (load_at h (pos 0) >>= λ top.
            if ltb_ℤ top.freq wf.freq
            then (pop WordFreq min_heap h >>= λ (_, h'). push WordFreq min_heap wf h')
            else ok h)

    -- The loop over the words from index `word` on.
    unfoldable pub select_words : ℤ → ℕ → List (Option Hist) → List WordFreq → Run (List WordFreq)
    unfolding word_freq keep_frequent
    select_words cached word [] h = ok h
    select_words cached word (hist ∷ hists) h = word_freq hist >>= λ freq.
        keep_frequent cached (record { word = pos word; freq = freq }) h >>= λ h'.
        select_words cached (suc word) hists h'

    -- `for h.Len() > 0 { wf := heap.Pop(h) … }`: the words that the heap gives, in at most that many
    -- rounds.
    unfoldable pub drain : ℕ → List WordFreq → Run (List WordFreq)
    unfolding heap_len
    drain zero h = ok []
    drain (suc n) h =
        if ltb_ℤ (pos 0) (heap_len h)
        then (pop WordFreq min_heap h >>= λ (wf, h'). drain n h' >>= λ wfs. ok (wf ∷ wfs))
        else ok []

  module _ (fl : Float64) where
    open fl use {F, of_int, add, div}

    -- The closure of buildSmoothingOnly.
    unfoldable pub smooth_topic : {E : Type 0} → Model F → Visitor (List F) E
    smooth_topic m topic count dist =
        store_at dist topic (div m.word_prior (add m.word_prior_sum (of_int count))) >>= λ dist'.
        ok (dist', none)

    -- The array that buildSmoothingOnly keeps.
    unfoldable pub smoothing_dist : Model F → Run (List F)
    unfolding smooth_topic
    smoothing_dist m = or_panic (to_index (num_topics m)) >>= λ n.
        Interface.for_each go {E = Unit {0}} (smooth_topic m) m.global_topic_hist
          (replicate n (of_int (pos 0)))
        >>= λ (dist, _). ok dist

    -- buildSmoothingOnly
    unfoldable pub build_smoothing_only : ModelAccessor F → Run (List F × ModelAccessor F)
    unfolding smoothing_dist
    build_smoothing_only a =
        elim a.smoothing_only [ [] ↦ smoothing_dist a.model | x ∷ xs ↦ ok (x ∷ xs) ] >>= λ base.
        or_panic (to_index (num_topics a.model)) >>= λ n.
        ok (Dense.copy (replicate n (of_int (pos 0))) base, record a { smoothing_only = base })

    -- The closure of cumulatePosterior.
    unfoldable pub posterior_topic : {E : Type 0} → Model F → Visitor (List F) E
    posterior_topic m t c dist = Interface.at m.global_topic_hist t >>= λ n.
        store_at dist t (div (add (of_int c) m.word_prior) (add m.word_prior_sum (of_int n)))
        >>= λ dist'. ok (dist', none)

    -- cumulatePosterior
    unfoldable pub cumulate_posterior : Model F → List F → ℤ → Run (List F)
    unfolding posterior_topic
    cumulate_posterior m dist token = word_entry m token >>= λ e. elim e [
      | none ↦ ok dist
      | some h ↦
          Interface.for_each go {E = Unit {0}} (posterior_topic m) h dist >>= λ (dist', _). ok dist'
    ]

    -- A distribution that is not read from the cache.
    unfoldable pub fresh_dist : ModelAccessor F → ℤ → Run (List F × ModelAccessor F)
    unfolding build_smoothing_only cumulate_posterior
    fresh_dist a token = build_smoothing_only a >>= λ (dist, a').
        cumulate_posterior a'.model dist token >>= λ dist'. ok (dist', a')

    -- WordTopicDist
    unfoldable pub word_topic_dist : ModelAccessor F → ℤ → Run (List F × ModelAccessor F)
    unfolding fresh_dist
    word_topic_dist a token = load_at a.word_topic_dists token >>= λ e. elim e [
      | some dist ↦ ok (dist, a)
      | none ↦ fresh_dist a token
    ]

    -- The number of distributions that fit into the cache, eight bytes for a float and 24 for a slice.
    unfoldable pub cache_capacity : Model F → ℤ → Run ℤ
    cache_capacity m size =
        if leb_ℤ (pos 0) size
        then quot64
            (sub64 (mul64 (mul64 size (pos 1024)) (pos 1024)) (mul64 (vocab_size m) (pos 24)))
            (mul64 (num_topics m) (pos 8))
        else ok (vocab_size m)

    -- The body of the loop that fills the cache, for each of the words.
    unfoldable pub fill_cache : List WordFreq → ModelAccessor F → Run (ModelAccessor F)
    unfolding fresh_dist
    fill_cache [] a = ok a
    fill_cache (wf ∷ words) a = fresh_dist a wf.word >>= λ (dist, a').
        store_at a'.word_topic_dists wf.word (some dist) >>= λ dists.
        fill_cache words (record a' { word_topic_dists = dists })

    -- NewModelAccessor
    unfoldable pub new_model_accessor : Heaps → Model F → ℤ → Run (ModelAccessor F)
    unfolding select_words fill_cache cache_capacity drain
    new_model_accessor heap m size = cache_capacity m size >>= λ cached.
        let empty : ModelAccessor F = record {
          model = m;
          word_topic_dists = replicate (length m.word_topic_hists) none;
          smoothing_only = [];
        } in
        if leb_ℤ cached (pos 0)
        then ok empty
        else (select_words heap cached 0 m.word_topic_hists [] >>= λ h.
            drain heap (length h) h >>= λ words. fill_cache words empty)
