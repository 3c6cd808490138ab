-- ===== src/Gibbs/Document/Apply.antt =====
-- core/gibbs/document.go: ApplyToModel adds the words of a document with their topics to a model.
use open_peacock.Prelude.{
  ℕ, ◌+◌, ◌≤◌, ◌≡◌, ◌≢◌, refl, sym, ap, ◌∙◌, subst, Bool, true, false, List, [], ◌∷◌, length,
  ℕ_discrete, arith, if◌then◌else◌,
}
use open_peacock.Prelude.Int.{ℤ, pos, negsuc, ◌+ℤ◌, ◌≤ℤ◌, eqb_ℤ, eqb_refl, int_laws, +ℤ_zero}
use open_peacock.Prelude.Word.{max_int32}
use open_peacock.Prelude.Run.{ok, returned, ok_injective}
use open_peacock.Hist.Ordered.Entries.{entries}
use open_peacock.Hist.Sparse.{value}
use open_peacock.Gibbs.Sampler.Counts.{in_range}
use open_peacock.Hist.Interface
use open_peacock.Hist.Interface.{counts}
use open_peacock.Hist.Refine.{interface_inc-Adds}
use open_peacock.Gibbs.Model.{Model, inc_word, inc_global, put_global}
use open_peacock.Gibbs.Model.Counts.{
  IsValidModel, OneMore, inc_word-OneMore, inc_word_negative, word_count, bump_at,
}
use open_peacock.Gibbs.Document.{Document, apply_words, apply_to_model}
use open_peacock.Gibbs.Document.Laws.{occurrences, IsConsistent}

-- How often a word stands with a topic in two lists.
abbrev pub pair_occurrences : ℕ → ℤ → List ℤ → List ℤ → ℕ
pair_occurrences w j [] ts = 0
pair_occurrences w j (u ∷ us) [] = 0
pair_occurrences w j (u ∷ us) (t ∷ ts) =
    (if eqb_ℤ u (pos w) then (if eqb_ℤ j t then 1 else 0) else 0) + pair_occurrences w j us ts

abbrev InRange : List ℤ → Type 0
InRange [] = Unit
InRange (t ∷ ts) = ((pos 0 ≤ℤ t) × (t ≤ℤ max_int32)) × InRange ts

bumped : (b : Bool) (x : ℤ) → bump_at b x ≡ x +ℤ pos (if b then 1 else 0)
bumped true x = refl
bumped false x = sym (+ℤ_zero x)

add_both : (x : ℤ) (a b : ℕ) → x +ℤ pos a +ℤ pos b ≡ x +ℤ pos (a + b)
add_both x a b = omega int_laws

-- What a list of words with topics has added to a model.
pub record Applied {F : Type 0} (m : Model F) (ws ts : List ℤ) (m' : Model F) : Type 0 where
  pub valid : IsValidModel m'
  pub global :
      (j : ℤ)
      → counts m'.global_topic_hist j ≡ counts m.global_topic_hist j +ℤ pos (occurrences j ts)
  pub words :
      (w : ℕ) (j : ℤ) → word_count m' w j ≡ word_count m w j +ℤ pos (pair_occurrences w j ws ts)

module _ {F : Type 0} where
  -- One word with its topic, in its own histogram and in the global one.
  apply_one :
      (m m₁ m₂ : Model F) (u t : ℤ)
      → IsValidModel m
      → pos 0 ≤ℤ t
      → t ≤ℤ max_int32
      → inc_word m u t (pos 1) ≡ ok m₁
      → inc_global m₁ t (pos 1) ≡ ok m₂
      → Applied m (u ∷ []) (t ∷ []) m₂
  unfolding inc_word inc_global put_global
  apply_one m m₁ m₂ (negsuc u) t v low high e f = cc (inc_word_negative m u t)
  apply_one m m₁ m₂ (pos i) t v low high e f =
      let o = inc_word-OneMore m m₁ i t v low high e in
      let (h, p, f₁) = returned (Interface.inc m₁.global_topic_hist t (pos 1)) _ f in
      let (v', adds) = interface_inc-Adds m₁.global_topic_hist h t o.valid.global low high p in
      subst (λ (x : Model F). Applied m (pos i ∷ []) (t ∷ []) x) (ok_injective f₁)
        (record {
          valid = record { global = v'; slots = o.valid.slots };
          global = λ j.
              adds j
              ∙ bumped (eqb_ℤ j t) _
              ∙ ap (λ x. counts x j +ℤ pos (if eqb_ℤ j t then 1 else 0)) o.same_global
              ∙ ap (λ n. counts m.global_topic_hist j +ℤ pos n) (omega arith);
          words = λ w j. elim (ℕ_discrete w i) [
            | yes r ↦ same w i j r o
            | no n ↦
                o.elsewhere w j n
                ∙ sym (+ℤ_zero (word_count m w j))
                ∙ ap (λ k. word_count m w j +ℤ pos k) (sym (other w i j n))
          ];
        })
    where
      same :
          (w i : ℕ) (j : ℤ)
          → w ≡ i
          → OneMore m i t m₁
          → word_count m₁ w j ≡ word_count m w j +ℤ pos (pair_occurrences w j (pos i ∷ []) (t ∷ []))
      same w i j r o =
          subst
            (λ k.
              word_count m₁ k j
              ≡ word_count m k j +ℤ pos (pair_occurrences k j (pos i ∷ []) (t ∷ [])))
            (sym r)
            (o.here j
              ∙ bumped (eqb_ℤ j t) (word_count m i j)
              ∙ ap (λ n. word_count m i j +ℤ pos n) (rw (eqb_refl (pos i)) (omega arith)))

      other : (w i : ℕ) (j : ℤ) → w ≢ i → pair_occurrences w j (pos i ∷ []) (t ∷ []) ≡ 0
      other w i j n = rw (different i w n) refl
        where
          different : (i w : ℕ) → w ≢ i → eqb_ℤ (pos i) (pos w) ≡ false
          different i w n = ground arith

  apply_words-Applied :
      (ws ts : List ℤ) (m m' : Model F)
      → IsValidModel m
      → InRange ts
      → length ws ≡ length ts
      → apply_words ws ts m ≡ ok m'
      → Applied m ws ts m'
  unfolding apply_words
  apply_words-Applied [] [] m m' v r l e =
      subst (λ (x : Model F). Applied m [] [] x) (ok_injective e)
        (record { valid = v; global = λ j. sym (+ℤ_zero _); words = λ w j. sym (+ℤ_zero _) })
  apply_words-Applied [] (t ∷ ts) m m' v r l e = absurd (omega arith)
  apply_words-Applied (u ∷ us) [] m m' v r l e = cc
  apply_words-Applied (u ∷ us) (t ∷ ts) m m' v r l e =
      let (m₁, p, e₁) = returned (inc_word m u t (pos 1)) _ e in
      let (m₂, q, e₂) = returned (inc_global m₁ t (pos 1)) _ e₁ in
      let a = apply_one m m₁ m₂ u t v r.0.0 r.0.1 p q in
      let b = apply_words-Applied us ts m₂ m' a.valid r.1 (omega arith) e₂ in
      record {
        valid = b.valid;
        global = λ j.
            b.global j
            ∙ ap (λ x. x +ℤ pos (occurrences j ts)) (a.global j)
            ∙ add_both _ _ _
            ∙ ap (λ n. counts m.global_topic_hist j +ℤ pos n) (omega arith);
        words = λ w j.
            b.words w j
            ∙ ap (λ x. x +ℤ pos (pair_occurrences w j us ts)) (a.words w j)
            ∙ add_both _ _ _
            ∙ ap (λ n. word_count m w j +ℤ pos n) (omega arith);
      }

-- The topics of a list that a histogram counts are in range.
counted-InRange :
    (d : Document) (ts : List ℤ)
    → IsConsistent d
    → ((t : ℤ) → occurrences t ts ≤ occurrences t d.topics)
    → InRange ts
counted-InRange d [] c sub = tt
counted-InRange d (t ∷ ts) c sub = (
  in_range (entries d.topic_hist) t c.counts.well_formed.valid
      (positive t (sub t) (c.counts.counted t)),
  counted-InRange d ts c (λ u. omega (arith, sub u)),
)
  where
    positive :
        (t : ℤ)
        → occurrences t (t ∷ ts) ≤ occurrences t d.topics
        → value (entries d.topic_hist) t ≡ pos (occurrences t d.topics)
        → pos 1 ≤ℤ value (entries d.topic_hist) t
    positive t le e = subst (λ (x : ℤ). pos 1 ≤ℤ x) (sym e) (omega (arith, rw (eqb_refl t) at le))

-- When ApplyToModel returns for a consistent document, on a model whose histograms keep their
-- invariants, these still do, the global count of each topic has grown by its occurrences in the
-- document, and the count of each topic at each word by their occurrences together.
pub apply_to_model-Applied :
    {F : Type 0} (d : Document) (m m' : Model F)
    → IsConsistent d
    → IsValidModel m
    → apply_to_model d m ≡ ok m'
    → Applied m d.words d.topics m'
unfolding apply_to_model
apply_to_model-Applied d m m' c v e =
    apply_words-Applied d.words d.topics m m' v (counted-InRange d d.topics c (λ t. omega arith))
      c.as_many e
