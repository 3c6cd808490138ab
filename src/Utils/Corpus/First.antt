-- ===== src/Utils/Corpus/First.antt =====
-- core/utils/io.go: the model that InitializeModel makes counts the corpus.
use open_peacock.Prelude.{
  ℕ, zero, suc, ◌+◌, ◌≡◌, refl, sym, ap, ◌∙◌, subst, none, List, [], ◌∷◌, length, get_elem?,
  replicate, arith,
}
use open_peacock.Prelude.Int.{ℤ, pos, negsuc, ◌+ℤ◌, ltb_ℤ, int_laws, +ℤ_zero, zero_+ℤ, to_index}
use open_peacock.Prelude.Run.{ok, panic_if, or_panic, returned, ok_injective}
use open_peacock.Runtime.{Runtime}
use open_peacock.Float64.{Float64}
use open_peacock.Hist.Dense
use open_peacock.Hist.Interface.{counts}
use open_peacock.Gibbs.Model.{Model, new_model}
use open_peacock.Gibbs.Model.Counts.{IsValidModel, IsValidSlot, word_count, slot_count}
use open_peacock.Gibbs.Document.{Document, apply_to_model}
use open_peacock.Gibbs.Document.Laws.{occurrences}
use open_peacock.Gibbs.Document.Apply.{pair_occurrences, apply_to_model-Applied}
use open_peacock.Gibbs.Vocab.{Vocabulary}
use open_peacock.Utils.Corpus.{apply_corpus, initialize_model}
use open_peacock.Train.Documents.{AllConsistent}

-- How often a topic stands in a corpus, and how often with a word.
abbrev pub topic_total : ℤ → List Document → ℕ
topic_total j [] = 0
topic_total j (d ∷ corpus) = occurrences j d.topics + topic_total j corpus

abbrev pub pair_total : ℕ → ℤ → List Document → ℕ
pair_total w j [] = 0
pair_total w j (d ∷ corpus) = pair_occurrences w j d.words d.topics + pair_total w j corpus

-- What a corpus has added to a model.
pub record Grown {F : Type 0} (m : Model F) (corpus : List Document) (m' : Model F) : Type 0 where
  pub valid : IsValidModel m'
  pub global :
      (j : ℤ)
      → counts m'.global_topic_hist j ≡ counts m.global_topic_hist j +ℤ pos (topic_total j corpus)
  pub words : (w : ℕ) (j : ℤ) → word_count m' w j ≡ word_count m w j +ℤ pos (pair_total w j corpus)

add_both : (x : ℤ) (a b : ℕ) → x +ℤ pos a +ℤ pos b ≡ x +ℤ pos (a + b)
add_both x a b = omega int_laws

apply_corpus-Grown :
    {F : Type 0} (corpus : List Document) (m m' : Model F)
    → AllConsistent corpus
    → IsValidModel m
    → apply_corpus corpus m ≡ ok m'
    → Grown m corpus m'
unfolding apply_corpus
apply_corpus-Grown [] m m' c v e =
    subst (λ x. Grown m [] x) (ok_injective e)
      (record { valid = v; global = λ j. sym (+ℤ_zero _); words = λ w j. sym (+ℤ_zero _) })
apply_corpus-Grown (d ∷ corpus) m m' c v e =
    let (m₁, p, e₁) = returned (apply_to_model d m) _ e in
    let a = apply_to_model-Applied d m m₁ c.0 v p in
    let b = apply_corpus-Grown corpus m₁ m' c.1 a.valid e₁ in
    record {
      valid = b.valid;
      global =
          λ j. b.global j ∙ ap (λ x. x +ℤ pos (topic_total j corpus)) (a.global j) ∙ add_both _ _ _;
      words = λ w j.
          b.words w j ∙ ap (λ x. x +ℤ pos (pair_total w j corpus)) (a.words w j) ∙ add_both _ _ _;
    }

module _ (go : Runtime) (fl : Float64) where
  open fl use {F, of_int, le}

  zeros_valid : (n : ℕ) → Dense.IsWellFormed (replicate n (pos 0))
  zeros_valid zero = tt
  zeros_valid (suc n) = (omega arith, zeros_valid n)

  zero_count : (n : ℕ) (j : ℤ) → Dense.count (replicate n (pos 0)) j ≡ pos 0
  zero_count n (negsuc j) = refl
  zero_count zero (pos j) = refl
  zero_count (suc n) (pos zero) = refl
  zero_count (suc n) (pos (suc j)) = zero_count n (pos j)

  -- A model that has counted nothing.
  record IsNew (m : Model F) : Type 0 where
    valid : IsValidModel m
    global : (j : ℤ) → counts m.global_topic_hist j ≡ pos 0
    words : (w : ℕ) (j : ℤ) → word_count m w j ≡ pos 0

  new_model-IsNew :
      (topics vocab : ℤ) (alpha beta : F) (m : Model F)
      → new_model go fl topics vocab alpha beta ≡ ok m
      → IsNew m
  unfolding new_model Dense.new_dense
  new_model-IsNew topics vocab alpha beta m e =
      let (u₁, p₁, e₁) = returned (panic_if (ltb_ℤ topics (pos 2))) _ e in
      let (u₂, p₂, e₂) = returned (panic_if (ltb_ℤ vocab (pos 2))) _ e₁ in
      let (u₃, p₃, e₃) = returned (panic_if (le alpha (of_int (pos 0)))) _ e₂ in
      let (u₄, p₄, e₄) = returned (panic_if (le beta (of_int (pos 0)))) _ e₃ in
      let (hist, p₅, e₅) = returned (Dense.new_dense topics) _ e₄ in
      let (k, p₆, e₆) = returned (or_panic (to_index topics)) _ e₅ in
      let (v, p₇, e₇) = returned (or_panic (to_index vocab)) _ e₆ in
      let (n, p₈, e₈) = returned (or_panic (to_index topics)) _ p₅ in
      let is : replicate n (pos 0) ≡ hist = ok_injective e₈ in
      subst (λ (x : Model F). IsNew x) (ok_injective e₇)
        (record {
          valid = record {
            global = subst (λ (d : List ℤ). Dense.IsWellFormed d) is (zeros_valid n);
            slots = λ w. empty_slot v w;
          };
          global = λ j. ap (λ (d : List ℤ). Dense.count d j) (sym is) ∙ zero_count n j;
          words = λ w j. empty_count v w j;
        })
    where
      empty_slot : (n w : ℕ) → IsValidSlot (get_elem? (replicate n none) w)
      empty_slot zero w = tt
      empty_slot (suc n) zero = tt
      empty_slot (suc n) (suc w) = empty_slot n w

      empty_count : (n w : ℕ) (j : ℤ) → slot_count (get_elem? (replicate n none) w) j ≡ pos 0
      empty_count zero w j = refl
      empty_count (suc n) zero j = refl
      empty_count (suc n) (suc w) j = empty_count n w j

  -- When InitializeModel returns for a corpus of consistent documents, the global count of each topic
  -- is the number of its occurrences in the corpus, the count of each topic at each word the number
  -- of their occurrences together, and every histogram keeps its invariant.
  pub initialize_model-counts :
      (corpus : List Document) (v : Vocabulary) (topics : ℤ) (alpha beta : F) (m : Model F)
      → AllConsistent corpus
      → initialize_model go fl corpus v topics alpha beta ≡ ok m
      → IsValidModel m
        × ((j : ℤ) → counts m.global_topic_hist j ≡ pos (topic_total j corpus))
        × ((w : ℕ) (j : ℤ) → word_count m w j ≡ pos (pair_total w j corpus))
  unfolding initialize_model
  initialize_model-counts corpus v topics alpha beta m c e =
      let (m₀, p, e₁) = returned (new_model go fl topics (pos (length v.tokens)) alpha beta) _ e in
      let n = new_model-IsNew topics (pos (length v.tokens)) alpha beta m₀ p in
      let g = apply_corpus-Grown corpus m₀ m c n.valid e₁ in
      (
        g.valid,
        λ j. g.global j ∙ ap (λ x. x +ℤ pos (topic_total j corpus)) (n.global j) ∙ zero_+ℤ _,
        λ w j. g.words w j ∙ ap (λ x. x +ℤ pos (pair_total w j corpus)) (n.words w j) ∙ zero_+ℤ _,
      )
