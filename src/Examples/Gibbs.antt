-- ===== src/Examples/Gibbs.antt =====
-- The theorems on documents and the sampler applied to small models.
use open_peacock.Prelude.{
  ℕ, zero, suc, get_elem?, ◌≤◌, ◌≡◌, refl, Bool, true, false, Option, none, some, List, [], ◌∷◌,
  map, length, arith,
}
use open_peacock.Prelude.Int.{ℤ, pos, negsuc, ◌+ℤ◌, ◌-ℤ◌, ltb_ℤ, leb_ℤ}
use open_peacock.Prelude.Word.{int32, max_int32}
use open_peacock.Prelude.Run.{ok}
use open_peacock.Float64.{Float64, Rand}
use open_peacock.Hist.Interface.{Hist, dense, sparse, ordered}
use open_peacock.Map.{lookup}
use open_peacock.Hist.Sparse.{value}
use open_peacock.Hist.Ordered.{OrderedSparse}
use open_peacock.Hist.Ordered.Entries.{entries}
use open_peacock.Gibbs.Model.{Model}
use open_peacock.Hist.Visit.{Adds}
use open_peacock.Hist.Interface
use open_peacock.Hist.Interface.{counts}
use open_peacock.Hist.Refine.{IsValid, interface_inc-Adds}
use open_peacock.Gibbs.Model.Counts.{IsValidModel, IsValidSlot}
use open_peacock.Gibbs.Document.{Document, initialize_document, apply_to_model}
use open_peacock.Gibbs.Document.Apply.{Applied, apply_to_model-Applied}
use open_peacock.Gibbs.Document.Laws.{IsConsistent, known, initialize_document-IsConsistent}
use open_peacock.Gibbs.Sampler.{Sampler}
use open_peacock.Gibbs.Sampler.Step.{sample}
use open_peacock.Gibbs.Sampler.Consistency.{sample-IsConsistent}
use open_peacock.Examples.{in_order}

-- Whole numbers in place of floats.
abbrev pub whole : Float64
whole = record {
  F = ℤ;
  of_int = λ n. n;
  to_int = λ x. x;
  add = ◌+ℤ◌;
  sub = ◌-ℤ◌;
  mul = λ x y. x;
  div = λ x y. x;
  lt = ltb_ℤ;
  le = leb_ℤ;
}

-- A source that draws zero.
abbrev pub zeros : Rand ℤ
zeros = record {
  State = Unit;
  intn = λ n s. (pos 0, s);
  intn-range = λ n s h. (omega arith, omega (arith, h));
  float64 = λ s. (pos 0, s);
}

initialize_document_example :
    (d : Document) × (rng : Unit) × (initialize_document zeros
        (pos 1 ∷ negsuc 0 ∷ pos 0 ∷ [])
        (λ w. w)
        (pos 2)
        tt
      ≡ ok (d, rng))
    × IsConsistent d
    × (d.words ≡ known (map (λ (w : ℤ). w) (pos 1 ∷ negsuc 0 ∷ pos 0 ∷ [])))
unfolding ◌+ℤ◌
initialize_document_example =
    initialize_document-IsConsistent zeros (pos 1 ∷ negsuc 0 ∷ pos 0 ∷ []) (λ w. w) (pos 2) tt
      (omega arith) (omega arith)

abbrev pub two_words : Model ℤ
two_words = record {
  global_topic_hist = dense (pos 1 ∷ pos 1 ∷ []);
  word_topic_hists = some (sparse ((pos 0, pos 1) ∷ [])) ∷ some (sparse ((pos 1, pos 1) ∷ [])) ∷ [];
  topic_prior = pos 1 ∷ pos 1 ∷ [];
  topic_prior_sum = pos 2;
  word_prior = pos 1;
  word_prior_sum = pos 2;
}

abbrev pub fresh : Model ℤ → Sampler ℤ
fresh m = record {
  model = m;
  diff = none;
  smoothing_only_bucket_size = pos 2;
  smoothing_only_bucket_factors = pos 1 ∷ pos 1 ∷ [];
  document_topic_bucket_size = pos 0;
  document_topic_bucket_factors = pos 0 ∷ pos 0 ∷ [];
  topic_word_bucket_size = pos 0;
  topic_word_bucket_factors = pos 0 ∷ pos 0 ∷ [];
  coefficients = pos 1 ∷ pos 1 ∷ [];
}

abbrev pub before : Document
before = record {
  topic_hist = record { topics = pos 0 ∷ pos 1 ∷ []; counts = pos 1 ∷ pos 1 ∷ [] };
  words = pos 0 ∷ pos 1 ∷ [];
  topics = pos 0 ∷ pos 1 ∷ [];
}

abbrev after_sampler : Sampler ℤ
after_sampler = record (fresh two_words) {
  model = record two_words {
    global_topic_hist = dense (pos 0 ∷ pos 2 ∷ []);
    word_topic_hists =
        some (sparse ((pos 1, pos 1) ∷ [])) ∷ some (sparse ((pos 1, pos 1) ∷ [])) ∷ [];
  };
  document_topic_bucket_size = pos 2;
  document_topic_bucket_factors = pos 0 ∷ pos 2 ∷ [];
}

abbrev pub after : Document
after = record before {
  topic_hist = record { topics = pos 1 ∷ []; counts = pos 2 ∷ [] };
  topics = pos 1 ∷ pos 1 ∷ [];
}

pub before-IsConsistent : IsConsistent before
unfolding entries lookup value
before-IsConsistent = record {
  as_many = refl;
  counts = record {
    well_formed = record {
      same_length = refl;
      is_map = (refl, (refl, tt));
      valid = ground arith;
      descending = ground arith;
    };
    counted = λ t. ground arith;
  };
}

pub sample_run :
    sample in_order whole zeros (fresh two_words) before tt ≡ ok (after_sampler, after, tt)
unfolding int32 lookup open_peacock.Gibbs.Model.dec_global open_peacock.Gibbs.Model.dec_word
    open_peacock.Gibbs.Model.inc_global open_peacock.Gibbs.Model.inc_word
    open_peacock.Gibbs.Model.num_topics open_peacock.Gibbs.Model.put_global
    open_peacock.Gibbs.Model.put_word open_peacock.Gibbs.Model.word_entry
    open_peacock.Gibbs.Model.word_topic_hist open_peacock.Gibbs.Sampler.Step.choose_topic
    open_peacock.Gibbs.Sampler.Step.neglect_or_consider_word
    open_peacock.Gibbs.Sampler.Step.pick_document open_peacock.Gibbs.Sampler.Step.pick_smoothing
    open_peacock.Gibbs.Sampler.Step.pick_topic_word open_peacock.Gibbs.Sampler.Step.refresh
    open_peacock.Gibbs.Sampler.Step.sample_new_topic open_peacock.Gibbs.Sampler.Step.sample_words
    open_peacock.Gibbs.Sampler.add_topic_word open_peacock.Gibbs.Sampler.build_document_topic_bucket
    open_peacock.Gibbs.Sampler.build_topic_word_bucket open_peacock.Gibbs.Sampler.change_counts
    open_peacock.Gibbs.Sampler.denominator open_peacock.Gibbs.Sampler.document_loop
    open_peacock.Gibbs.Sampler.load_at open_peacock.Gibbs.Sampler.reset_loop
    open_peacock.Gibbs.Sampler.smoothing_factor open_peacock.Gibbs.Sampler.store_at
    open_peacock.Gibbs.Sampler.update_loop open_peacock.Hist.Dense.at open_peacock.Hist.Dense.dec
    open_peacock.Hist.Dense.enumerate open_peacock.Hist.Dense.for_each open_peacock.Hist.Dense.inc
    open_peacock.Hist.Dense.len open_peacock.Hist.Interface.at open_peacock.Hist.Interface.dec
    open_peacock.Hist.Interface.for_each open_peacock.Hist.Interface.inc
    open_peacock.Hist.Interface.len open_peacock.Hist.Ordered.at open_peacock.Hist.Ordered.at_loop
    open_peacock.Hist.Ordered.dec open_peacock.Hist.Ordered.find_index
    open_peacock.Hist.Ordered.for_each open_peacock.Hist.Ordered.for_each_loop
    open_peacock.Hist.Ordered.inc open_peacock.Hist.Ordered.len open_peacock.Hist.Ordered.lower
    open_peacock.Hist.Ordered.put open_peacock.Hist.Ordered.raise
    open_peacock.Hist.Ordered.settle_left open_peacock.Hist.Ordered.settle_right
    open_peacock.Hist.Ordered.shift_left open_peacock.Hist.Ordered.shift_right
    open_peacock.Hist.Sparse.at open_peacock.Hist.Sparse.dec open_peacock.Hist.Sparse.for_each
    open_peacock.Hist.Sparse.inc open_peacock.Hist.Sparse.len open_peacock.Hist.Sparse.new_sparse
    open_peacock.Hist.Visit.visit open_peacock.Map.erase open_peacock.Map.insert
    open_peacock.Prelude.Word.int64 sample value ◌+ℤ◌ ◌-ℤ◌
sample_run = refl

sample-IsConsistent_example : IsConsistent after × (after.words ≡ before.words)
sample-IsConsistent_example =
    sample-IsConsistent in_order whole zeros (fresh two_words) after_sampler before after tt tt
      before-IsConsistent sample_run

abbrev nothing_counted : Model ℤ
nothing_counted = record two_words {
  global_topic_hist = dense (pos 0 ∷ pos 0 ∷ []);
  word_topic_hists = none ∷ none ∷ [];
}

nothing_counted-IsValid : IsValidModel nothing_counted
nothing_counted-IsValid = record { global = ground arith; slots = λ w. valid_slot w }
  where
    valid_slot : (w : ℕ) → IsValidSlot (get_elem? nothing_counted.word_topic_hists w)
    valid_slot zero = tt
    valid_slot (suc zero) = tt
    valid_slot (suc (suc w)) = tt

apply_run : apply_to_model before nothing_counted ≡ ok two_words
unfolding Interface.inc apply_to_model int32 lookup open_peacock.Gibbs.Model.inc_global
    open_peacock.Gibbs.Model.inc_word open_peacock.Gibbs.Model.put_global
    open_peacock.Gibbs.Model.put_word open_peacock.Gibbs.Model.word_entry
    open_peacock.Gibbs.Model.word_topic_hist open_peacock.Hist.Dense.at open_peacock.Hist.Dense.inc
    open_peacock.Hist.Sparse.inc open_peacock.Hist.Sparse.new_sparse open_peacock.Map.insert
    open_peacock.Prelude.Word.int64 value ◌+ℤ◌ ◌-ℤ◌
apply_run = refl

apply_to_model_example : Applied nothing_counted before.words before.topics two_words
apply_to_model_example =
    apply_to_model-Applied before nothing_counted two_words before-IsConsistent
      nothing_counted-IsValid apply_run

one_topic-IsValid : IsValid (sparse ((pos 0, pos 1) ∷ []))
unfolding value lookup
one_topic-IsValid = record { is_map = (refl, tt); int32_counts = λ k. ground arith }

inc_run :
    Interface.inc (sparse ((pos 0, pos 1) ∷ [])) (pos 0) (pos 1) ≡ ok (sparse ((pos 0, pos 2) ∷ []))
unfolding Interface.inc int32 lookup open_peacock.Hist.Sparse.inc open_peacock.Map.insert value ◌+ℤ◌
    ◌-ℤ◌
inc_run = refl

interface_inc_example :
    IsValid (sparse ((pos 0, pos 2) ∷ []))
    × Adds
        (counts (sparse ((pos 0, pos 1) ∷ [])))
        (pos 0)
        (pos 1)
        (counts (sparse ((pos 0, pos 2) ∷ [])))
interface_inc_example =
    interface_inc-Adds (sparse ((pos 0, pos 1) ∷ [])) (sparse ((pos 0, pos 2) ∷ [])) (pos 0)
      one_topic-IsValid (omega arith) (omega arith) inc_run
