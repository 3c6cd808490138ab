-- ===== src/Examples/Accessor.antt =====
-- The theorems on the accessor and the interpreter applied to a model of two words.
use mathlib.Core.List.{Permᴰ}
use mathlib.Core.List.Permᴰ
use open_peacock.Prelude.{
  ℕ, zero, suc, get_elem?, ◌≡◌, refl, sym, ap, ◌∙◌, subst, ◌++◌, ◌⊎◌, inl, inr, Option, none, some,
  List, [], ◌∷◌, String, arith,
}
use open_peacock.Prelude.Int.{ℤ, pos, negsuc, ◌+ℤ◌}
use open_peacock.Prelude.Run.{ok}
use open_peacock.Runtime.{Heaps}
use open_peacock.Hist.Interface.{Hist, sparse}
use open_peacock.Gibbs.Document.{Document}
use open_peacock.Gibbs.Document.Laws.{IsConsistent}
use open_peacock.Gibbs.Accessor.{ModelAccessor, WordFreq, word_topic_dist, new_model_accessor}
use open_peacock.Gibbs.Accessor.Cache.{
  IsFaithful, direct, word_topic_dist-IsFaithful, new_model_accessor-IsFaithful,
}
use open_peacock.Gibbs.Evaluator.{DistCache, new_dist_cache}
use open_peacock.Gibbs.Interpreter.{Interpreter, Prob, InterpretError, interpret_round, interpret}
use open_peacock.Gibbs.Interpreter.Consistency.{interpret_round-IsConsistent}
use open_peacock.Gibbs.Interpreter.Empty.{interpret-empty}
use open_peacock.Examples.{in_order}
use open_peacock.Examples.Gibbs.{whole, zeros, two_words, before, after, before-IsConsistent}

abbrev to_front : {A : Type 0} (x : A) (l : List A) → Permᴰ (l ++ x ∷ []) (x ∷ l)
to_front x l = Permᴰ.trans (Permᴰ.middle x l []) (Permᴰ.cons refl (Permᴰ.append-nil l))

abbrev split_last :
    {A : Type 0} (x : A) (l : List A) → (r : List A) × (y : A) × (x ∷ l ≡ r ++ y ∷ [])
split_last x [] = ([], x, refl)
split_last x (z ∷ l) = let (r, y, e) = split_last z l in (x ∷ r, y, ap (λ k. x ∷ k) e)

-- A heap that gives the last element first, by the methods of its slice.
abbrev pub stack : Heaps
stack = record {
  push = λ A m x l. ok (m.push x l);
  push-perm = λ A m x l contract. (
    m.push x l,
    refl,
    subst (λ r. Permᴰ (x ∷ l) r) (sym (contract.appends x l)) (Permᴰ.symm (to_front x l)),
  );
  pop = λ A m l. m.pop l;
  pop-perm = λ A m x l contract.
      let (r, y, same) = split_last x l in
      (
        y,
        r,
        ap m.pop same ∙ contract.removes y r,
        subst (λ k. Permᴰ k (y ∷ r)) (sym same) (to_front y r),
      );
}

-- Three words that occur once, not at all and twice, of which two are cached.
abbrev three_hists : List (Option Hist)
three_hists = some (sparse ((pos 0, pos 1) ∷ [])) ∷ none ∷ some (sparse ((pos 1, pos 2) ∷ [])) ∷ []

abbrev three_freqs : List WordFreq
three_freqs =
    record { word = pos 0; freq = pos 1 }
    ∷ record { word = pos 1; freq = pos 0 }
    ∷ record { word = pos 2; freq = pos 2 }
    ∷ []

-- The accessor that caches both words.
abbrev pub both_cached : ModelAccessor ℤ
both_cached = record {
  model = two_words;
  word_topic_dists = some (pos 2 ∷ pos 1 ∷ []) ∷ some (pos 1 ∷ pos 2 ∷ []) ∷ [];
  smoothing_only = pos 1 ∷ pos 1 ∷ [];
}

made_run : new_model_accessor in_order whole stack two_words (negsuc 0) ≡ ok both_cached
unfolding new_model_accessor open_peacock.Gibbs.Accessor.add_count
    open_peacock.Gibbs.Accessor.heap_pop open_peacock.Gibbs.Accessor.heap_push
    open_peacock.Gibbs.Model.num_topics open_peacock.Gibbs.Model.vocab_size
    open_peacock.Gibbs.Model.word_entry open_peacock.Gibbs.Sampler.store_at
    open_peacock.Hist.Dense.at open_peacock.Hist.Dense.copy open_peacock.Hist.Dense.for_each
    open_peacock.Hist.Dense.len open_peacock.Hist.Interface.at open_peacock.Hist.Interface.for_each
    open_peacock.Hist.Interface.len open_peacock.Hist.Sparse.for_each open_peacock.Prelude.Int.◌-ℤ◌
    ◌+ℤ◌
made_run = refl

new_model_accessor_example : IsFaithful in_order whole two_words both_cached
new_model_accessor_example =
    new_model_accessor-IsFaithful in_order whole stack two_words (negsuc 0) both_cached made_run

-- An accessor that has kept nothing, and after its first call.
abbrev none_cached : List ℤ → ModelAccessor ℤ
none_cached xs = record {
  model = two_words;
  word_topic_dists = none ∷ none ∷ [];
  smoothing_only = xs;
}

none_cached-IsFaithful : IsFaithful in_order whole two_words (none_cached [])
none_cached-IsFaithful = record { same_model = refl; kept = inl refl; cached = λ i d h. never i h }
  where
    never :
        (i : ℕ) {d : List ℤ}
        → get_elem? (none_cached []).word_topic_dists i ≡ some (some d)
        → direct in_order whole two_words (pos i) ≡ ok d
    never zero h = cc
    never (suc zero) h = cc
    never (suc (suc i)) h = cc

dist_run :
    word_topic_dist in_order whole (none_cached []) (pos 1)
    ≡ ok (pos 1 ∷ pos 2 ∷ [], none_cached (pos 1 ∷ pos 1 ∷ []))
unfolding open_peacock.Gibbs.Model.num_topics open_peacock.Gibbs.Model.word_entry
    open_peacock.Gibbs.Sampler.load_at open_peacock.Gibbs.Sampler.store_at
    open_peacock.Hist.Dense.at open_peacock.Hist.Dense.copy open_peacock.Hist.Dense.for_each
    open_peacock.Hist.Dense.len open_peacock.Hist.Interface.at open_peacock.Hist.Interface.for_each
    open_peacock.Hist.Interface.len open_peacock.Hist.Sparse.for_each word_topic_dist ◌+ℤ◌
dist_run = refl

word_topic_dist_example :
    (direct in_order whole two_words (pos 1) ≡ ok (pos 1 ∷ pos 2 ∷ []))
    × IsFaithful in_order whole two_words (none_cached (pos 1 ∷ pos 1 ∷ []))
word_topic_dist_example =
    word_topic_dist-IsFaithful in_order whole two_words (none_cached [])
      (none_cached (pos 1 ∷ pos 1 ∷ [])) (pos 1) (pos 1 ∷ pos 2 ∷ []) none_cached-IsFaithful
      dist_run

abbrev reader : Interpreter ℤ
reader = record {
  model = both_cached;
  vocab = record { tokens = "a" ∷ "b" ∷ []; ids = none };
  smoothing_only_sum = pos 2 ∷ pos 2 ∷ [];
}

abbrev both_read : DistCache ℤ
both_read = record {
  accessor = both_cached;
  cache = (pos 0, pos 2 ∷ pos 1 ∷ []) ∷ (pos 1, pos 1 ∷ pos 2 ∷ []) ∷ [];
}

round_run :
    interpret_round in_order whole zeros reader before (new_dist_cache both_cached) tt
    ≡ ok (after, both_read, tt)
unfolding interpret_round open_peacock.Gibbs.Accessor.build_smoothing_only
    open_peacock.Gibbs.Accessor.cumulate_posterior open_peacock.Gibbs.Accessor.fresh_dist
    open_peacock.Gibbs.Accessor.posterior_topic open_peacock.Gibbs.Accessor.smooth_topic
    open_peacock.Gibbs.Accessor.smoothing_dist open_peacock.Gibbs.Evaluator.get
    open_peacock.Gibbs.Interpreter.add_topic
    open_peacock.Gibbs.Interpreter.calculate_document_topic_bucket
    open_peacock.Gibbs.Interpreter.interpret_words open_peacock.Gibbs.Interpreter.pick_bucket
    open_peacock.Gibbs.Interpreter.pick_prior open_peacock.Gibbs.Interpreter.pick_topic
    open_peacock.Gibbs.Interpreter.sample_topic open_peacock.Gibbs.Model.num_topics
    open_peacock.Gibbs.Model.word_entry open_peacock.Gibbs.Sampler.load_at
    open_peacock.Gibbs.Sampler.store_at open_peacock.Hist.Dense.at open_peacock.Hist.Dense.copy
    open_peacock.Hist.Dense.enumerate open_peacock.Hist.Dense.for_each open_peacock.Hist.Dense.len
    open_peacock.Hist.Interface.at open_peacock.Hist.Interface.for_each
    open_peacock.Hist.Interface.len open_peacock.Hist.Ordered.at open_peacock.Hist.Ordered.at_loop
    open_peacock.Hist.Ordered.dec open_peacock.Hist.Ordered.find_index
    open_peacock.Hist.Ordered.for_each open_peacock.Hist.Ordered.for_each_loop
    open_peacock.Hist.Ordered.inc open_peacock.Hist.Ordered.len open_peacock.Hist.Ordered.lower
    open_peacock.Hist.Ordered.put open_peacock.Hist.Ordered.raise
    open_peacock.Hist.Ordered.settle_left open_peacock.Hist.Ordered.settle_right
    open_peacock.Hist.Ordered.shift_left open_peacock.Hist.Ordered.shift_right
    open_peacock.Hist.Sparse.at open_peacock.Hist.Sparse.for_each open_peacock.Hist.Sparse.len
    open_peacock.Hist.Sparse.value open_peacock.Hist.Visit.visit open_peacock.Map.insert
    open_peacock.Map.lookup open_peacock.Prelude.Int.◌-ℤ◌ open_peacock.Prelude.Word.int32
    word_topic_dist ◌+ℤ◌
round_run = refl

interpret_round_example : IsConsistent after × (after.words ≡ before.words)
interpret_round_example =
    interpret_round-IsConsistent in_order whole zeros reader before after
      (new_dist_cache both_cached) both_read tt tt before-IsConsistent round_run

one_round :
    interpret in_order whole zeros (λ ws. tt) reader ("a" ∷ "b" ∷ []) (pos 0) (pos 1) ≡ ok (inr [])
unfolding interpret interpret_round open_peacock.Gibbs.Accessor.build_smoothing_only
    open_peacock.Gibbs.Accessor.cumulate_posterior open_peacock.Gibbs.Accessor.fresh_dist
    open_peacock.Gibbs.Accessor.posterior_topic open_peacock.Gibbs.Accessor.smooth_topic
    open_peacock.Gibbs.Accessor.smoothing_dist open_peacock.Gibbs.Document.assign_topics
    open_peacock.Gibbs.Document.draw_topic open_peacock.Gibbs.Document.initialize_document
    open_peacock.Gibbs.Document.len open_peacock.Gibbs.Evaluator.get
    open_peacock.Gibbs.Interpreter.accumulate_round open_peacock.Gibbs.Interpreter.accumulate_topic
    open_peacock.Gibbs.Interpreter.add_prob_of open_peacock.Gibbs.Interpreter.add_topic
    open_peacock.Gibbs.Interpreter.calculate_document_topic_bucket
    open_peacock.Gibbs.Interpreter.interpret_rounds open_peacock.Gibbs.Interpreter.interpret_words
    open_peacock.Gibbs.Interpreter.less_prob open_peacock.Gibbs.Interpreter.pick_bucket
    open_peacock.Gibbs.Interpreter.pick_prior open_peacock.Gibbs.Interpreter.pick_topic
    open_peacock.Gibbs.Interpreter.sample_topic open_peacock.Gibbs.Model.num_topics
    open_peacock.Gibbs.Model.word_entry open_peacock.Gibbs.Sampler.load_at
    open_peacock.Gibbs.Sampler.store_at open_peacock.Gibbs.Vocab.assign_ids
    open_peacock.Gibbs.Vocab.current_ids open_peacock.Gibbs.Vocab.id open_peacock.Gibbs.Vocab.id_of
    open_peacock.Hist.Dense.at open_peacock.Hist.Dense.copy open_peacock.Hist.Dense.enumerate
    open_peacock.Hist.Dense.for_each open_peacock.Hist.Dense.len open_peacock.Hist.Interface.at
    open_peacock.Hist.Interface.for_each open_peacock.Hist.Interface.len
    open_peacock.Hist.Ordered.at open_peacock.Hist.Ordered.at_loop open_peacock.Hist.Ordered.dec
    open_peacock.Hist.Ordered.find_index open_peacock.Hist.Ordered.for_each
    open_peacock.Hist.Ordered.for_each_loop open_peacock.Hist.Ordered.inc
    open_peacock.Hist.Ordered.len open_peacock.Hist.Ordered.lower
    open_peacock.Hist.Ordered.new_ordered_sparse
    open_peacock.Hist.Ordered.new_ordered_sparse_and_reserve open_peacock.Hist.Ordered.put
    open_peacock.Hist.Ordered.raise open_peacock.Hist.Ordered.settle_left
    open_peacock.Hist.Ordered.settle_right open_peacock.Hist.Ordered.shift_left
    open_peacock.Hist.Ordered.shift_right open_peacock.Hist.Sparse.at
    open_peacock.Hist.Sparse.for_each open_peacock.Hist.Sparse.inc open_peacock.Hist.Sparse.len
    open_peacock.Hist.Sparse.new_sparse open_peacock.Hist.Sparse.value open_peacock.Hist.Visit.visit
    open_peacock.Map.insert open_peacock.Map.lookup open_peacock.Prelude.Int.◌-ℤ◌
    open_peacock.Prelude.Word.int32 word_topic_dist ◌+ℤ◌
one_round = refl

interpret-empty_example : ◌≡◌ {A = List (Prob ℤ)} [] []
unfolding ◌+ℤ◌
interpret-empty_example =
    interpret-empty in_order whole zeros (λ ws. tt) reader ("a" ∷ "b" ∷ []) (pos 0) 1 []
      (omega arith) one_round
