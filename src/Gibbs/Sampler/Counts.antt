-- ===== src/Gibbs/Sampler/Counts.antt =====
-- core/gibbs/sampler.go: neglectOrConsiderWord, as a change of the histogram of the document.
use open_peacock.Prelude.{
  ℕ, ◌+◌, ◌≡◌, sym, ap, ◌∙◌, subst, inl, inr, Bool, true, false, Option, some, List, [], ◌∷◌, arith,
  if◌then◌else◌, Option-cases, Bool-cases,
}
use open_peacock.Prelude.Int.{ℤ, pos, ◌+ℤ◌, ◌-ℤ◌, ◌≤ℤ◌, eqb_ℤ, int_laws, eqb_refl}
use open_peacock.Prelude.Word.{max_int32}
use open_peacock.Prelude.Run.{ok, returned, ok_injective}
use open_peacock.Map.{Map, lookup}
use open_peacock.Runtime.{Runtime}
use open_peacock.Float64.{Float64}
use open_peacock.Hist.Sparse.{value}
use open_peacock.Hist.Ordered
use open_peacock.Hist.Ordered.{OrderedSparse}
use open_peacock.Hist.Ordered.Entries.{entries}
use open_peacock.Hist.Ordered.Order.{IsEntry, IsWellFormed, All}
use open_peacock.Hist.Ordered.Units.{inc_one, dec_one}
use open_peacock.Gibbs.Model.{Model, inc_word, inc_global, dec_word, dec_global}
use open_peacock.Gibbs.Document.Laws.{occurrences, Counts}
use open_peacock.Gibbs.Sampler.{Sampler, change_counts}
use open_peacock.Gibbs.Sampler.Step.{refresh, neglect_or_consider_word}

-- The histogram in the middle of the loop: the new topics, counted by `k`, and the old topics of the
-- words that are left.
pub record CountsBeyond (h : OrderedSparse) (k : ℤ → ℕ) (topics : List ℤ) : Type 0 where
  pub well_formed : IsWellFormed h
  pub counted : (j : ℤ) → value (entries h) j ≡ pos (k j + occurrences j topics)

-- One more topic in a count.
abbrev pub plus : (ℤ → ℕ) → ℤ → ℤ → ℕ
plus k t j = k j + (if eqb_ℤ j t then 1 else 0)

valid_entry :
    (es : Map ℤ) (t v : ℤ) → All IsEntry es → lookup t es ≡ some v → (pos 0 ≤ℤ t) × (t ≤ℤ max_int32)
unfolding lookup
valid_entry [] t v h e = cc
valid_entry ((s, w) ∷ es) t v h e = ground (arith, valid_entry es t v h.1)

-- A topic with a count is in range.
pub in_range :
    (es : Map ℤ) (t : ℤ) → All IsEntry es → pos 1 ≤ℤ value es t → (pos 0 ≤ℤ t) × (t ≤ℤ max_int32)
unfolding value
in_range es t h le = elim (Option-cases (lookup t es)) [
  | inl e ↦ omega (arith, rw (value, e) at le)
  | inr (v, e) ↦ valid_entry es t v h e
]

lower_count : (a b : ℕ) (x : ℤ) → x ≡ pos (a + (1 + b)) → x +ℤ (pos 0 -ℤ pos 1) ≡ pos (a + b)
lower_count a b x e = ap (λ y. y +ℤ (pos 0 -ℤ pos 1)) e ∙ omega int_laws

pub at_least_one : (a b : ℕ) (x : ℤ) → x ≡ pos (a + (1 + b)) → pos 1 ≤ℤ x
at_least_one a b x e = subst (λ (y : ℤ). pos 1 ≤ℤ y) (sym e) (omega arith)

raise_count : (a b : ℕ) (x : ℤ) → x ≡ pos (a + b) → x +ℤ pos 1 ≡ pos (a + 1 + b)
raise_count a b x e = ap (λ y. y +ℤ pos 1) e ∙ omega int_laws

pub neglected :
    (h h' : OrderedSparse) (t : ℤ) (k : ℤ → ℕ) (topics : List ℤ)
    → CountsBeyond h k (t ∷ topics)
    → Ordered.dec h t (pos 1) ≡ ok h'
    → CountsBeyond h' k topics
neglected h h' t k topics c e =
    let (low, high) = in_range (entries h) t c.well_formed.valid (counts_here (c.counted t)) in
    let l = dec_one h t c.well_formed low high e in
    record { well_formed = l.well_formed; counted = λ j. one_less j (l.adds j) (c.counted j) }
  where
    counts_here :
        value (entries h) t ≡ pos (k t + occurrences t (t ∷ topics)) → pos 1 ≤ℤ value (entries h) t
    counts_here e = at_least_one (k t) (occurrences t topics) _ (rw (eqb_refl t) at e)

    one_less :
        (j : ℤ)
        → value (entries h') j
          ≡ (if eqb_ℤ j t then value (entries h) j +ℤ (pos 0 -ℤ pos 1) else value (entries h) j)
        → value (entries h) j ≡ pos (k j + occurrences j (t ∷ topics))
        → value (entries h') j ≡ pos (k j + occurrences j topics)
    one_less j p q = elim (Bool-cases (eqb_ℤ j t)) [
      | inl e ↦ (rw e at p) ∙ lower_count (k j) (occurrences j topics) _ (rw e at q)
      | inr e ↦ (rw e at p) ∙ (rw e at q) ∙ ap pos (omega arith)
    ]

pub considered :
    (h h' : OrderedSparse) (t : ℤ) (k : ℤ → ℕ) (topics : List ℤ)
    → pos 0 ≤ℤ t
    → t ≤ℤ max_int32
    → CountsBeyond h k topics
    → Ordered.inc h t (pos 1) ≡ ok h'
    → CountsBeyond h' (plus k t) topics
considered h h' t k topics low high c e =
    let r = inc_one h t c.well_formed low high e in
    record { well_formed = r.well_formed; counted = λ j. one_more j (r.adds j) (c.counted j) }
  where
    one_more :
        (j : ℤ)
        → value (entries h') j
          ≡ (if eqb_ℤ j t then value (entries h) j +ℤ pos 1 else value (entries h) j)
        → value (entries h) j ≡ pos (k j + occurrences j topics)
        → value (entries h') j ≡ pos (plus k t j + occurrences j topics)
    one_more j p q = elim (Bool-cases (eqb_ℤ j t)) [
      | inl e ↦ (rw e at p) ∙ raise_count (k j) (occurrences j topics) _ q ∙ rw e
      | inr e ↦ (rw e at p) ∙ q ∙ rw e (ap pos (omega arith))
    ]

-- A count that was in `k` is one of the list's.
pub joined :
    (h : OrderedSparse) (t : ℤ) (k : ℤ → ℕ) (topics : List ℤ)
    → CountsBeyond h (plus k t) topics
    → CountsBeyond h k (t ∷ topics)
joined h t k topics c = record {
  well_formed = c.well_formed;
  counted = λ j. c.counted j ∙ ap pos (omega arith);
}

-- Before the first word and behind the last one, nothing stands beside the list.
pub begins :
    (h : OrderedSparse) (topics : List ℤ) → Counts h topics → CountsBeyond h (λ j. 0) topics
begins h topics c = record {
  well_formed = c.well_formed;
  counted = λ j. c.counted j ∙ ap pos (omega arith);
}

pub finishes :
    (h : OrderedSparse) (topics : List ℤ) → CountsBeyond h (λ j. 0) topics → Counts h topics
finishes h topics c = record {
  well_formed = c.well_formed;
  counted = λ j. c.counted j ∙ ap pos (omega arith);
}

module _ {F : Type 0} where
  -- The histogram of the document after changeCounts.
  pub neglect-hist :
      (m m' : Model F) (d d' : Option (Model F)) (h h' : OrderedSparse) (w t : ℤ)
      → change_counts true m d h w t ≡ ok (m', d', h')
      → Ordered.dec h t (pos 1) ≡ ok h'
  unfolding change_counts
  neglect-hist m m' d d' h h' w t e =
      let (m₁, p, e₁) = returned (dec_word m w t (pos 1)) _ e in
      let (m₂, p₁, e₂) = returned (dec_global m₁ t (pos 1)) _ e₁ in
      let (h₁, p₂, e₃) = returned (Ordered.dec h t (pos 1)) _ e₂ in
      let same : h₁ ≡ h' = elim (Option-cases d) [
        | inl q ↦ ap (λ x. x.2) (ok_injective (rw q at e₃))
        | inr (x, q) ↦
            let (d₁, r, e₄) = returned (dec_word x w t (pos 1)) _ (rw q at e₃) in
            let (d₂, r', e₅) = returned (dec_global d₁ t (pos 1)) _ e₄ in
            ap (λ x. x.2) (ok_injective e₅)
      ] in
      subst (λ x. Ordered.dec h t (pos 1) ≡ ok x) same p₂

  pub consider-hist :
      (m m' : Model F) (d d' : Option (Model F)) (h h' : OrderedSparse) (w t : ℤ)
      → change_counts false m d h w t ≡ ok (m', d', h')
      → Ordered.inc h t (pos 1) ≡ ok h'
  unfolding change_counts
  consider-hist m m' d d' h h' w t e =
      let (m₁, p, e₁) = returned (inc_word m w t (pos 1)) _ e in
      let (m₂, p₁, e₂) = returned (inc_global m₁ t (pos 1)) _ e₁ in
      let (h₁, p₂, e₃) = returned (Ordered.inc h t (pos 1)) _ e₂ in
      let same : h₁ ≡ h' = elim (Option-cases d) [
        | inl q ↦ ap (λ x. x.2) (ok_injective (rw q at e₃))
        | inr (x, q) ↦
            let (d₁, r, e₄) = returned (inc_word x w t (pos 1)) _ (rw q at e₃) in
            let (d₂, r', e₅) = returned (inc_global d₁ t (pos 1)) _ e₄ in
            ap (λ x. x.2) (ok_injective e₅)
      ] in
      subst (λ x. Ordered.inc h t (pos 1) ≡ ok x) same p₂

module _ (go : Runtime) (fl : Float64) where
  open fl use {F}

  -- neglectOrConsiderWord changes the counts first.
  pub word-hist :
      (s s' : Sampler F) (h h' : OrderedSparse) (w t : ℤ) (neglect : Bool)
      → neglect_or_consider_word go fl s h w t neglect ≡ ok (s', h')
      → (m : Model F) × (d : Option (Model F)) × (change_counts neglect s.model s.diff h w t
          ≡ ok (m, d, h'))
  unfolding neglect_or_consider_word
  word-hist s s' h h' w t neglect e =
      let ((m, d, h₁), p, e₁) = returned (change_counts neglect s.model s.diff h w t) _ e in
      let (s₁, q, e₂) = returned (refresh go fl (record s { model = m; diff = d }) h₁ t) _ e₁ in
      let same : h₁ ≡ h' = cc in
      (m, d, subst (λ x. change_counts neglect s.model s.diff h w t ≡ ok (m, d, x)) same p)
