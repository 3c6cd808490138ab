-- ===== src/Gibbs/Model/Counts.antt =====
-- core/gibbs/model.go: the counts of a model, and what an increment by one does to them.
use open_peacock.Prelude.{
  ℕ, zero, suc, ◌<◌, ◌≡◌, ◌≢◌, refl, sym, ap, ◌∙◌, subst, inl, inr, Bool, Option, none, some, List,
  [], ◌∷◌, length, get_elem?, set, get_elem?-set_self, get_elem?-set_ne, ℕ_discrete, arith,
  if◌then◌else◌, Option-cases,
}
use open_peacock.Prelude.Int.{ℤ, pos, negsuc, ◌+ℤ◌, ◌≤ℤ◌, eqb_ℤ}
use open_peacock.Prelude.Word.{max_int32}
use open_peacock.Prelude.Run.{ok, panic, or_panic, returned, ok_injective}
use open_peacock.Map.{lookup}
use open_peacock.Hist.Sparse.{value, new_sparse}
use open_peacock.Hist.Interface
use open_peacock.Hist.Interface.{Hist, sparse, counts}
use open_peacock.Hist.Refine.{IsValid, interface_inc-Adds}
use open_peacock.Gibbs.Model.{Model, word_entry, word_topic_hist, put_word, inc_word}

-- The counts of a slot of the slice of histograms: zero if it is nil or out of range.
abbrev pub slot_count : Option (Option Hist) → ℤ → ℤ
slot_count none j = pos 0
slot_count (some none) j = pos 0
slot_count (some (some h)) j = counts h j

-- How often the model has the word with the topic.
abbrev pub word_count : {F : Type 0} → Model F → ℕ → ℤ → ℤ
word_count m w j = slot_count (get_elem? m.word_topic_hists w) j

abbrev pub IsValidSlot : Option (Option Hist) → Type 0
IsValidSlot none = Unit
IsValidSlot (some none) = Unit
IsValidSlot (some (some h)) = IsValid h

-- Every histogram of the model keeps its invariant.
pub record IsValidModel {F : Type 0} (m : Model F) : Type 0 where
  pub global : IsValid m.global_topic_hist
  pub slots : (w : ℕ) → IsValidSlot (get_elem? m.word_topic_hists w)

-- One more at a topic.
abbrev pub bump_at : Bool → ℤ → ℤ
bump_at b x = if b then x +ℤ pos 1 else x

set-set : {A : Type 0} (xs : List A) (i : ℕ) (a b : A) → set (set xs i a) i b ≡ set xs i b
set-set [] i a b = refl
set-set (x ∷ xs) zero a b = refl
set-set (x ∷ xs) (suc i) a b = ap (◌∷◌ x) (set-set xs i a b)

below : {A : Type 0} (xs : List A) (i : ℕ) {x : A} → get_elem? xs i ≡ some x → i < length xs
below [] i h = cc
below (x ∷ xs) zero h = omega arith
below (x ∷ xs) (suc i) h = omega (arith, below xs i h)

or_panic_found : {A : Type 0} (o : Option A) {x : A} → or_panic o ≡ ok x → o ≡ some x
or_panic_found none h = cc
or_panic_found (some x) h = ap some (ok_injective h)

empty-IsValid : IsValid (sparse new_sparse)
unfolding new_sparse value lookup
empty-IsValid = record { is_map = tt; int32_counts = λ k. ground arith }

module _ {F : Type 0} where
  -- The histogram that WordTopicHist returns, and the model after a write of its slot.
  record Found (m : Model F) (i : ℕ) (h : Hist) (m' : Model F) : Type 0 where
    in_bounds : i < length m.word_topic_hists
    valid : IsValid h
    same_counts : (j : ℤ) → slot_count (get_elem? m.word_topic_hists i) j ≡ counts h j
    write : (x : Option Hist) → put_word m' (pos i) x ≡ put_word m (pos i) x

  word_topic_hist-Found :
      (m m' : Model F) (i : ℕ) (h : Hist)
      → IsValidModel m
      → word_topic_hist m (pos i) ≡ ok (h, m')
      → Found m i h m'
  unfolding word_topic_hist word_entry put_word new_sparse value lookup
  word_topic_hist-Found m m' i h v e =
      let (entry, p, e₁) = returned (word_entry m (pos i)) _ e in
      let here = or_panic_found (get_elem? m.word_topic_hists i) p in
      elim (Option-cases entry) [
        | inr (h₀, q) ↦
            let slot : get_elem? m.word_topic_hists i ≡ some (some h₀) = here ∙ ap some q in
            subst (λ (x : Hist × Model F). Found m i x.0 x.1) (ok_injective (rw q at e₁))
              (record {
                in_bounds = below m.word_topic_hists i here;
                valid = subst IsValidSlot slot (v.slots i);
                same_counts = λ j. ap (λ o. slot_count o j) slot;
                write = λ x. refl;
              })
        | inl q ↦
            let slot : get_elem? m.word_topic_hists i ≡ some none = here ∙ ap some q in
            subst (λ (x : Hist × Model F). Found m i x.0 x.1) (ok_injective (rw q at e₁))
              (record {
                in_bounds = below m.word_topic_hists i here;
                valid = empty-IsValid;
                same_counts = λ j. ap (λ o. slot_count o j) slot;
                write = λ x.
                    ap (λ hs. record m { word_topic_hists = hs })
                      (set-set m.word_topic_hists i (some (sparse new_sparse)) x);
              })
      ]

  -- What one more occurrence of a word with a topic has done to the histograms of the words.
  pub record OneMore (m : Model F) (i : ℕ) (t : ℤ) (m' : Model F) : Type 0 where
    pub valid : IsValidModel m'
    pub same_global : m'.global_topic_hist ≡ m.global_topic_hist
    pub here : (j : ℤ) → word_count m' i j ≡ bump_at (eqb_ℤ j t) (word_count m i j)
    pub elsewhere : (w : ℕ) (j : ℤ) → w ≢ i → word_count m' w j ≡ word_count m w j

  pub inc_word-OneMore :
      (m m' : Model F) (i : ℕ) (t : ℤ)
      → IsValidModel m
      → pos 0 ≤ℤ t
      → t ≤ℤ max_int32
      → inc_word m (pos i) t (pos 1) ≡ ok m'
      → OneMore m i t m'
  unfolding inc_word put_word
  inc_word-OneMore m m' i t v low high e =
      let ((h, m₁), p, e₁) = returned (word_topic_hist m (pos i)) _ e in
      let (h', q, e₂) = returned (Interface.inc h t (pos 1)) _ e₁ in
      let f = word_topic_hist-Found m m₁ i h v p in
      let (v', adds) = interface_inc-Adds h h' t f.valid low high q in
      let self = get_elem?-set_self m.word_topic_hists i (some h') f.in_bounds in
      subst (λ (x : Model F). OneMore m i t x) (sym (f.write (some h')) ∙ ok_injective e₂)
        (record {
          valid = record {
            global = v.global;
            slots = λ w. elim (ℕ_discrete i w) [
              | yes r ↦
                  subst (λ k. IsValidSlot (get_elem? (set m.word_topic_hists i (some h')) k)) r
                    (subst IsValidSlot (sym self) v')
              | no n ↦
                  subst IsValidSlot (sym (get_elem?-set_ne m.word_topic_hists (some h') n))
                    (v.slots w)
            ];
          };
          same_global = refl;
          here = λ j.
              ap (λ o. slot_count o j) self
              ∙ adds j
              ∙ ap (bump_at (eqb_ℤ j t)) (sym (f.same_counts j));
          elsewhere = λ w j n.
              ap (λ o. slot_count o j)
                (get_elem?-set_ne m.word_topic_hists (some h') (λ r. n (sym r)));
        })

  -- A negative word panics.
  pub inc_word_negative : (m : Model F) (u : ℕ) (t : ℤ) → inc_word m (negsuc u) t (pos 1) ≡ panic
  unfolding inc_word word_topic_hist word_entry
  inc_word_negative m u t = refl
