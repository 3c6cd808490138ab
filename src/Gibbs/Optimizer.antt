-- ===== src/Gibbs/Optimizer.antt =====
-- core/gibbs/optimizer.go: the statistics for the optimisation of the topic prior.
use open_peacock.Prelude.{ℕ, zero, suc, none, List, [], ◌∷◌, replicate, if◌then◌else◌}
use open_peacock.Prelude.Int.{ℤ, pos, ltb_ℤ, ◌+ℤ◌, to_index}
use open_peacock.Prelude.Word.{int32, add32}
use open_peacock.Prelude.Run.{Run, ok, panic, ◌>>=◌, or_panic}
use open_peacock.Map.{insert}
use open_peacock.Runtime.{Runtime}
use open_peacock.Float64.{Float64}
use open_peacock.Hist.Visit.{Visitor}
use open_peacock.Hist.Dense
use open_peacock.Hist.Dense.{Dense, new_dense}
use open_peacock.Hist.Sparse
use open_peacock.Hist.Sparse.{Sparse, value, new_sparse}
use open_peacock.Gibbs.Model.{Model}
use open_peacock.Gibbs.Document
use open_peacock.Gibbs.Document.{Document}
use open_peacock.Gibbs.Sampler.{load_at, store_at}

-- The histogram of the document lengths, and for each topic that of its counts in the documents.
pub record Optimizer : Type 0 where
  pub doc_len_hist : Sparse
  pub topic_doc_hists : List Sparse

-- NewOptimizer
unfoldable pub new_optimizer : ℤ → Run Optimizer
new_optimizer num_topic = do
  n ← or_panic (to_index num_topic)
  ok (record { doc_len_hist = new_sparse; topic_doc_hists = replicate n new_sparse })

-- `h[k]++`
unfoldable pub bump : Sparse → ℤ → Sparse
bump h k = insert k (add32 (value h k) (pos 1)) h

-- The loop of CollectDocumentStatistics over the topics of the document.
unfoldable pub collect_topics : List ℤ → List ℤ → List Sparse → Run (List Sparse)
collect_topics [] counts hists = ok hists
collect_topics (t ∷ topics) [] hists = panic
collect_topics (t ∷ topics) (c ∷ counts) hists = load_at hists t >>= λ h.
    store_at hists t (bump h c) >>= λ hists'. collect_topics topics counts hists'

-- CollectDocumentStatistics
unfoldable pub collect_document_statistics : Optimizer → Document → Run Optimizer
collect_document_statistics o d = do
  hists ← collect_topics d.topic_hist.topics d.topic_hist.counts o.topic_doc_hists
  ok (record {
    doc_len_hist = bump o.doc_len_hist (int32 (Document.len d));
    topic_doc_hists = hists;
  })

-- The largest key, from `max` on.
unfoldable pub max_key : Sparse → ℤ → ℤ
max_key [] max = max
max_key (e ∷ es) max = max_key es (if ltb_ℤ max e.0 then e.0 else max)

-- The closure of approximateHist.
unfoldable pub inc_dense : {E : Type 0} → Visitor Dense E
inc_dense k v d = Dense.inc d k v >>= λ d'. ok (d', none)

module _ (go : Runtime) where
  -- approximateHist: an empty array stands for nil.
  unfoldable pub approximate_hist : Sparse → Run Dense
  approximate_hist [] = ok []
  approximate_hist (e ∷ es) = new_dense (max_key (go.range ℤ (e ∷ es)) (pos 0) +ℤ pos 1) >>= λ d.
      Sparse.for_each go {E = Unit {0}} inc_dense (e ∷ es) d >>= λ (d', _). ok d'

  module _ (fl : Float64) where
    open fl use {F, of_int, add, sub, mul, div}

    -- The digamma recurrence over a dense histogram from index `i` on, with the running difference.
    unfoldable pub digamma_sum : F → ℕ → Dense → F → F → F
    digamma_sum prior i [] diff total = total
    digamma_sum prior i (n ∷ d) diff total =
        let diff' =
          add diff (div (of_int (pos 1)) (add (sub (of_int (pos i)) (of_int (pos 1))) prior)) in
        digamma_sum prior (suc i) d diff' (add total (mul (of_int n) diff'))

    -- `for i := 1; i < len(d); i++`
    unfoldable pub digamma_from_one : F → Dense → F
    digamma_from_one prior [] = of_int (pos 0)
    digamma_from_one prior (_ ∷ d) = digamma_sum prior 1 d (of_int (pos 0)) (of_int (pos 0))

    -- The loop over the topics: the new priors and their sum.
    unfoldable pub update_priors : F → F → List Sparse → ℕ → List F → F → Run (List F × F)
    update_priors shape denominator [] k priors sum = ok (priors, sum)
    update_priors shape denominator (h ∷ hists) k priors sum = approximate_hist h >>= λ d.
        load_at priors (pos k) >>= λ a.
        let a' = div (add (mul a (digamma_from_one a d)) shape) denominator in
        store_at priors (pos k) a' >>= λ priors'.
        update_priors shape denominator hists (suc k) priors' (add sum a')

    -- OptimizeTopicPriors
    unfoldable pub optimize_topic_priors : Optimizer → Model F → F → F → ℕ → Run (Model F)
    optimize_topic_priors o m shape scale zero = ok m
    optimize_topic_priors o m shape scale (suc iterations) =
        approximate_hist o.doc_len_hist >>= λ d.
        let denominator = sub (digamma_from_one m.topic_prior_sum d) (div (of_int (pos 1)) scale) in
        update_priors shape denominator o.topic_doc_hists 0 m.topic_prior (of_int (pos 0))
        >>= λ (priors, sum).
            optimize_topic_priors o (record m { topic_prior = priors; topic_prior_sum = sum }) shape
              scale iterations
