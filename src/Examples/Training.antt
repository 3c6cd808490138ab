-- ===== src/Examples/Training.antt =====
-- The theorems on the trainers and the corpus applied to a corpus of one document.
use mathlib.Core.List.Permᴰ
use open_peacock.Prelude.{
  ℕ, ◌≡◌, ◌≢◌, refl, false, Option, none, some, List, [], ◌∷◌, String, arith,
}
use open_peacock.Prelude.Int.{ℤ, pos, negsuc, pos_part, ◌+ℤ◌, ◌-ℤ◌}
use open_peacock.Prelude.Run.{ok}
use open_peacock.Hist.Interface.{dense, sparse, counts}
use open_peacock.Gibbs.Model.{Model}
use open_peacock.Gibbs.Model.Counts.{IsValidModel, word_count}
use open_peacock.Gibbs.Document.{Document}
use open_peacock.Prelude.Word.{int32}
use open_peacock.Gibbs.Vocab.{Vocabulary, id, current_ids, id_of, assign_ids}
use open_peacock.Utils.Corpus.{is_kept, load_corpus_or_die, initialize_model}
use open_peacock.Utils.Corpus.Laws.{kept_lines, AllShort, load_corpus-returns}
use open_peacock.Utils.Corpus.First.{topic_total, pair_total, initialize_model-counts}
use open_peacock.Train.Single.{Flags, train}
use open_peacock.Train.Multi.{MultiFlags, Parallel, train_shards}
use open_peacock.Train.Multi.Races.{IsParallelFor, in_turn, loop_indices}
use open_peacock.Train.Documents.{AllConsistent, all_words, Sampled, train-Sampled}
use open_peacock.Train.Shards.{train_shards-Sampled}
use open_peacock.Examples.{in_order}
use open_peacock.Examples.Gibbs.{whole, zeros, two_words, before, after, before-IsConsistent}
use open_peacock.Examples.Accessor.{stack}

-- One iteration, with the evaluation and without the optimisation.
abbrev once : Flags ℤ
once = record {
  topics = pos 2;
  gibbs_iter = 1;
  optim_start = pos 10;
  shape = pos 0;
  scale = pos 1;
  optim_iter = 1;
  cache = pos 0;
  eval_lag = pos 1;
}

abbrev trained : Model ℤ
trained = record two_words {
  global_topic_hist = dense (pos 0 ∷ pos 2 ∷ []);
  word_topic_hists = some (sparse ((pos 1, pos 1) ∷ [])) ∷ some (sparse ((pos 1, pos 1) ∷ [])) ∷ [];
}

train_run :
    train in_order stack whole zeros (λ x. x) (λ x. x) (λ i. false) once two_words (before ∷ []) tt
    ≡ ok (trained, after ∷ [])
unfolding open_peacock.Gibbs.Accessor.add_count open_peacock.Gibbs.Accessor.build_smoothing_only
    open_peacock.Gibbs.Accessor.cumulate_posterior open_peacock.Gibbs.Accessor.fresh_dist
    open_peacock.Gibbs.Accessor.new_model_accessor open_peacock.Gibbs.Accessor.posterior_topic
    open_peacock.Gibbs.Accessor.smooth_topic open_peacock.Gibbs.Accessor.smoothing_dist
    open_peacock.Gibbs.Accessor.word_topic_dist open_peacock.Gibbs.Evaluator.add_coeff
    open_peacock.Gibbs.Evaluator.add_prob open_peacock.Gibbs.Evaluator.calculate_evaluation_coeff
    open_peacock.Gibbs.Evaluator.coeff_loop open_peacock.Gibbs.Evaluator.get
    open_peacock.Gibbs.Evaluator.new_evaluator open_peacock.Gibbs.Evaluator.perplexity
    open_peacock.Gibbs.Evaluator.perplexity_loop open_peacock.Gibbs.Evaluator.sum_dist
    open_peacock.Gibbs.Evaluator.token_coeff open_peacock.Gibbs.Model.dec_global
    open_peacock.Gibbs.Model.dec_word open_peacock.Gibbs.Model.inc_global
    open_peacock.Gibbs.Model.inc_word open_peacock.Gibbs.Model.new_model
    open_peacock.Gibbs.Model.num_topics open_peacock.Gibbs.Model.put_global
    open_peacock.Gibbs.Model.put_word open_peacock.Gibbs.Model.vocab_size
    open_peacock.Gibbs.Model.word_entry open_peacock.Gibbs.Model.word_topic_hist
    open_peacock.Gibbs.Optimizer.new_optimizer open_peacock.Gibbs.Sampler.Step.choose_topic
    open_peacock.Gibbs.Sampler.Step.neglect_or_consider_word
    open_peacock.Gibbs.Sampler.Step.pick_document open_peacock.Gibbs.Sampler.Step.pick_smoothing
    open_peacock.Gibbs.Sampler.Step.pick_topic_word open_peacock.Gibbs.Sampler.Step.refresh
    open_peacock.Gibbs.Sampler.Step.sample open_peacock.Gibbs.Sampler.Step.sample_new_topic
    open_peacock.Gibbs.Sampler.Step.sample_words open_peacock.Gibbs.Sampler.add_topic_word
    open_peacock.Gibbs.Sampler.after_optimization
    open_peacock.Gibbs.Sampler.build_document_topic_bucket
    open_peacock.Gibbs.Sampler.build_smoothing_only_bucket
    open_peacock.Gibbs.Sampler.build_topic_word_bucket open_peacock.Gibbs.Sampler.cache_coefficients
    open_peacock.Gibbs.Sampler.cache_loop open_peacock.Gibbs.Sampler.change_counts
    open_peacock.Gibbs.Sampler.denominator open_peacock.Gibbs.Sampler.document_loop
    open_peacock.Gibbs.Sampler.load_at open_peacock.Gibbs.Sampler.new_sampler
    open_peacock.Gibbs.Sampler.reset_loop open_peacock.Gibbs.Sampler.smoothing_factor
    open_peacock.Gibbs.Sampler.smoothing_loop open_peacock.Gibbs.Sampler.store_at
    open_peacock.Gibbs.Sampler.update_loop open_peacock.Hist.Dense.at open_peacock.Hist.Dense.copy
    open_peacock.Hist.Dense.dec open_peacock.Hist.Dense.enumerate open_peacock.Hist.Dense.for_each
    open_peacock.Hist.Dense.inc open_peacock.Hist.Dense.len open_peacock.Hist.Interface.at
    open_peacock.Hist.Interface.dec open_peacock.Hist.Interface.for_each
    open_peacock.Hist.Interface.inc open_peacock.Hist.Interface.len open_peacock.Hist.Ordered.at
    open_peacock.Hist.Ordered.at_loop open_peacock.Hist.Ordered.dec
    open_peacock.Hist.Ordered.find_index open_peacock.Hist.Ordered.for_each
    open_peacock.Hist.Ordered.for_each_loop open_peacock.Hist.Ordered.inc
    open_peacock.Hist.Ordered.len open_peacock.Hist.Ordered.lower open_peacock.Hist.Ordered.put
    open_peacock.Hist.Ordered.raise open_peacock.Hist.Ordered.settle_left
    open_peacock.Hist.Ordered.settle_right open_peacock.Hist.Ordered.shift_left
    open_peacock.Hist.Ordered.shift_right open_peacock.Hist.Sparse.at open_peacock.Hist.Sparse.dec
    open_peacock.Hist.Sparse.for_each open_peacock.Hist.Sparse.inc open_peacock.Hist.Sparse.len
    open_peacock.Hist.Sparse.new_sparse open_peacock.Hist.Sparse.value open_peacock.Hist.Visit.visit
    open_peacock.Map.erase open_peacock.Map.insert open_peacock.Map.lookup
    open_peacock.Prelude.Word.int32 open_peacock.Prelude.Word.int64
    open_peacock.Train.Single.evaluate open_peacock.Train.Single.is_eval_time
    open_peacock.Train.Single.train_iteration open_peacock.Train.Single.optimize
    open_peacock.Train.Single.perplexity_of open_peacock.Train.Single.sample_corpus
    open_peacock.Train.Single.sum_perplexity open_peacock.Train.Single.train
    open_peacock.Train.Single.train_loop ◌+ℤ◌ ◌-ℤ◌ open_peacock.Prelude.Int.◌*ℤ◌
    open_peacock.Gibbs.Document.len
train_run = refl

train_example : Sampled (before ∷ []) (after ∷ [])
train_example =
    train-Sampled in_order stack whole zeros (λ x. x) (λ x. x) (λ i. false) once two_words trained
      (before ∷ []) (after ∷ []) tt (before-IsConsistent, tt) train_run

-- The goroutines one after the other, in the order of the loop.
abbrev in_loop_order : Parallel
in_loop_order =
    λ S from to step f s. in_turn f (loop_indices (pos_part (to -ℤ from)) from to step) s

in_loop_order-IsParallelFor : IsParallelFor in_loop_order
in_loop_order-IsParallelFor S c from to step f s s' free e =
    (loop_indices (pos_part (to -ℤ from)) from to step, Permᴰ.refl _, e)

abbrev shared : MultiFlags ℤ
shared = record { flags = once; alpha = pos 1; beta = pos 1; shards = pos 2 }

abbrev trained_twice : Model ℤ
trained_twice = record two_words {
  global_topic_hist = dense (negsuc 0 ∷ pos 3 ∷ []);
  word_topic_hists =
      some (sparse ((pos 1, pos 2) ∷ (pos 0, negsuc 0) ∷ []))
      ∷ some (sparse ((pos 1, pos 1) ∷ []))
      ∷ [];
}

shards_run :
    train_shards in_order stack whole zeros in_loop_order
      (λ x. x)
      (λ x. x)
      (λ i. false)
      shared
      (pos 2)
      tt
      two_words
      (before ∷ before ∷ [])
    ≡ ok (trained_twice, after ∷ after ∷ [])
unfolding open_peacock.Gibbs.Accessor.add_count open_peacock.Gibbs.Accessor.build_smoothing_only
    open_peacock.Gibbs.Accessor.cumulate_posterior open_peacock.Gibbs.Accessor.fresh_dist
    open_peacock.Gibbs.Accessor.new_model_accessor open_peacock.Gibbs.Accessor.posterior_topic
    open_peacock.Gibbs.Accessor.smooth_topic open_peacock.Gibbs.Accessor.smoothing_dist
    open_peacock.Gibbs.Accessor.word_topic_dist open_peacock.Gibbs.Evaluator.add_coeff
    open_peacock.Gibbs.Evaluator.add_prob open_peacock.Gibbs.Evaluator.calculate_evaluation_coeff
    open_peacock.Gibbs.Evaluator.coeff_loop open_peacock.Gibbs.Evaluator.get
    open_peacock.Gibbs.Evaluator.new_evaluator open_peacock.Gibbs.Evaluator.perplexity
    open_peacock.Gibbs.Evaluator.perplexity_loop open_peacock.Gibbs.Evaluator.sum_dist
    open_peacock.Gibbs.Evaluator.token_coeff open_peacock.Gibbs.Model.absorb
    open_peacock.Gibbs.Model.accumulate open_peacock.Gibbs.Model.accumulate_word
    open_peacock.Gibbs.Model.accumulate_words open_peacock.Gibbs.Model.as_dense
    open_peacock.Gibbs.Model.clone open_peacock.Gibbs.Model.clone_words
    open_peacock.Gibbs.Model.count_word open_peacock.Gibbs.Model.cut_at
    open_peacock.Gibbs.Model.dec_global open_peacock.Gibbs.Model.dec_word
    open_peacock.Gibbs.Model.inc_global open_peacock.Gibbs.Model.inc_or_dec
    open_peacock.Gibbs.Model.inc_word open_peacock.Gibbs.Model.new_model
    open_peacock.Gibbs.Model.num_topics open_peacock.Gibbs.Model.put_global
    open_peacock.Gibbs.Model.put_word open_peacock.Gibbs.Model.vocab_size
    open_peacock.Gibbs.Model.word_entry open_peacock.Gibbs.Model.word_topic_hist
    open_peacock.Gibbs.Optimizer.bump open_peacock.Gibbs.Optimizer.collect_document_statistics
    open_peacock.Gibbs.Optimizer.collect_topics open_peacock.Gibbs.Optimizer.new_optimizer
    open_peacock.Gibbs.Sampler.Step.choose_topic
    open_peacock.Gibbs.Sampler.Step.neglect_or_consider_word
    open_peacock.Gibbs.Sampler.Step.pick_document open_peacock.Gibbs.Sampler.Step.pick_smoothing
    open_peacock.Gibbs.Sampler.Step.pick_topic_word open_peacock.Gibbs.Sampler.Step.refresh
    open_peacock.Gibbs.Sampler.Step.sample open_peacock.Gibbs.Sampler.Step.sample_new_topic
    open_peacock.Gibbs.Sampler.Step.sample_words open_peacock.Gibbs.Sampler.add_topic_word
    open_peacock.Gibbs.Sampler.after_optimization
    open_peacock.Gibbs.Sampler.build_document_topic_bucket
    open_peacock.Gibbs.Sampler.build_smoothing_only_bucket
    open_peacock.Gibbs.Sampler.build_topic_word_bucket open_peacock.Gibbs.Sampler.cache_coefficients
    open_peacock.Gibbs.Sampler.cache_loop open_peacock.Gibbs.Sampler.change_counts
    open_peacock.Gibbs.Sampler.denominator open_peacock.Gibbs.Sampler.document_loop
    open_peacock.Gibbs.Sampler.get_diff open_peacock.Gibbs.Sampler.load_at
    open_peacock.Gibbs.Sampler.new_sampler open_peacock.Gibbs.Sampler.reset_loop
    open_peacock.Gibbs.Sampler.set_diff open_peacock.Gibbs.Sampler.smoothing_factor
    open_peacock.Gibbs.Sampler.smoothing_loop open_peacock.Gibbs.Sampler.store_at
    open_peacock.Gibbs.Sampler.update_loop open_peacock.Gibbs.Sharder.fill
    open_peacock.Gibbs.Sharder.fill_buckets open_peacock.Gibbs.Sharder.new_sharder
    open_peacock.Gibbs.Sharder.shard_model open_peacock.Gibbs.Sharder.sizes
    open_peacock.Hist.Dense.at open_peacock.Hist.Dense.clone open_peacock.Hist.Dense.copy
    open_peacock.Hist.Dense.dec open_peacock.Hist.Dense.enumerate open_peacock.Hist.Dense.for_each
    open_peacock.Hist.Dense.inc open_peacock.Hist.Dense.len open_peacock.Hist.Dense.new_dense
    open_peacock.Hist.Interface.at open_peacock.Hist.Interface.clone open_peacock.Hist.Interface.dec
    open_peacock.Hist.Interface.for_each open_peacock.Hist.Interface.inc
    open_peacock.Hist.Interface.len open_peacock.Hist.Ordered.at open_peacock.Hist.Ordered.at_loop
    open_peacock.Hist.Ordered.dec open_peacock.Hist.Ordered.find_index
    open_peacock.Hist.Ordered.for_each open_peacock.Hist.Ordered.for_each_loop
    open_peacock.Hist.Ordered.inc open_peacock.Hist.Ordered.len open_peacock.Hist.Ordered.lower
    open_peacock.Hist.Ordered.put open_peacock.Hist.Ordered.raise
    open_peacock.Hist.Ordered.settle_left open_peacock.Hist.Ordered.settle_right
    open_peacock.Hist.Ordered.shift_left open_peacock.Hist.Ordered.shift_right
    open_peacock.Hist.Sparse.at open_peacock.Hist.Sparse.clone open_peacock.Hist.Sparse.copy_entries
    open_peacock.Hist.Sparse.dec open_peacock.Hist.Sparse.for_each open_peacock.Hist.Sparse.inc
    open_peacock.Hist.Sparse.len open_peacock.Hist.Sparse.new_sparse open_peacock.Hist.Sparse.value
    open_peacock.Hist.Visit.visit open_peacock.Map.erase open_peacock.Map.insert
    open_peacock.Map.lookup open_peacock.Prelude.Word.int32 open_peacock.Prelude.Word.int64
    open_peacock.Train.Multi.add_diffs open_peacock.Train.Multi.cap_shards
    open_peacock.Train.Multi.collect_corpus open_peacock.Train.Multi.evaluate_shard
    open_peacock.Train.Multi.evaluate_shards open_peacock.Train.Multi.new_diffs
    open_peacock.Train.Multi.optimize_model open_peacock.Train.Multi.perplexity_stride
    open_peacock.Train.Multi.sample_shard open_peacock.Train.Multi.sample_stride
    open_peacock.Train.Multi.shard_iteration open_peacock.Train.Multi.train_shards
    open_peacock.Train.Multi.train_shards_loop open_peacock.Train.Single.evaluate
    open_peacock.Train.Single.is_eval_time open_peacock.Train.Single.train_iteration
    open_peacock.Train.Single.optimize open_peacock.Train.Single.perplexity_of
    open_peacock.Train.Single.sample_corpus open_peacock.Train.Single.sum_perplexity
    open_peacock.Train.Single.train open_peacock.Train.Single.train_loop ◌+ℤ◌ ◌-ℤ◌
    open_peacock.Prelude.Int.◌*ℤ◌ open_peacock.Gibbs.Document.len
    open_peacock.Train.Multi.Races.loop_indices
shards_run = refl

train_shards_example : Sampled (before ∷ before ∷ []) (after ∷ after ∷ [])
train_shards_example =
    train_shards-Sampled in_order stack whole zeros in_loop_order (λ x. x) (λ x. x)
      in_loop_order-IsParallelFor (λ i. false) shared (pos 2) tt two_words trained_twice
      (before ∷ before ∷ []) (after ∷ after ∷ []) (before-IsConsistent, (before-IsConsistent, tt))
      shards_run

abbrev letters : Vocabulary
letters = record { tokens = "a" ∷ "b" ∷ []; ids = none }

abbrev first_model : Model ℤ
first_model = record two_words { topic_prior_sum = pos 1; word_prior_sum = pos 1 }

first_run :
    initialize_model in_order whole (before ∷ []) letters (pos 2) (pos 1) (pos 1) ≡ ok first_model
unfolding initialize_model open_peacock.Gibbs.Document.apply_to_model
    open_peacock.Gibbs.Document.apply_words open_peacock.Gibbs.Model.inc_global
    open_peacock.Gibbs.Model.inc_word open_peacock.Gibbs.Model.new_model
    open_peacock.Gibbs.Model.put_global open_peacock.Gibbs.Model.put_word
    open_peacock.Gibbs.Model.word_entry open_peacock.Gibbs.Model.word_topic_hist
    open_peacock.Hist.Dense.at open_peacock.Hist.Dense.inc open_peacock.Hist.Dense.new_dense
    open_peacock.Hist.Interface.inc open_peacock.Hist.Ordered.find_index
    open_peacock.Hist.Ordered.inc open_peacock.Hist.Ordered.put open_peacock.Hist.Ordered.raise
    open_peacock.Hist.Ordered.settle_left open_peacock.Hist.Ordered.shift_left
    open_peacock.Hist.Sparse.inc open_peacock.Hist.Sparse.new_sparse open_peacock.Hist.Sparse.value
    open_peacock.Map.insert open_peacock.Map.lookup open_peacock.Prelude.Word.int32
    open_peacock.Prelude.Word.int64 open_peacock.Utils.Corpus.apply_corpus ◌+ℤ◌ ◌-ℤ◌
first_run = refl

initialize_model_example :
    IsValidModel first_model
    × ((j : ℤ) → counts first_model.global_topic_hist j ≡ pos (topic_total j (before ∷ [])))
    × ((w : ℕ) (j : ℤ) → word_count first_model w j ≡ pos (pair_total w j (before ∷ [])))
initialize_model_example =
    initialize_model-counts in_order whole (before ∷ []) letters (pos 2) (pos 1) (pos 1) first_model
      (before-IsConsistent, tt) first_run

abbrev two_lines : List (List String)
two_lines = ("a" ∷ "c" ∷ []) ∷ ("c" ∷ []) ∷ []

two_lines-AllShort : AllShort (pos 2) two_lines
unfolding ◌+ℤ◌
two_lines-AllShort = (omega arith, (omega arith, tt))

some_line : kept_lines letters (pos 1) (negsuc 0) two_lines ≢ []
unfolding is_kept id current_ids id_of assign_ids int32
some_line e = cc

load_corpus_example :
    (ds : List Document) × (rng : Unit) × (load_corpus_or_die zeros {E = Unit}
        (some (record { lines = two_lines; rest = []; error = none }))
        letters
        (pos 2)
        (pos 1)
        (negsuc 0)
        tt
      ≡ ok (ds, rng))
    × AllConsistent ds
    × (all_words ds ≡ kept_lines letters (pos 1) (negsuc 0) two_lines)
load_corpus_example =
    load_corpus-returns zeros Unit letters (pos 2) (pos 1) (negsuc 0) two_lines [] tt (omega arith)
      two_lines-AllShort some_line
