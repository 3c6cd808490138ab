-- ===== src/Gibbs/Sampler/Consistency.antt =====
-- core/gibbs/sampler.go: Sample keeps the topics of a document and their histogram consistent.
use open_peacock.Prelude.{
  ℕ, ◌≡◌, refl, sym, ap, ◌∙◌, subst, inl, inr, Bool, true, false, ◌||◌, List, [], ◌∷◌, length,
  arith, Bool-cases,
}
use open_peacock.Prelude.Int.{ℤ, pos, ◌≤ℤ◌, leb_ℤ, ltb_ℤ}
use open_peacock.Prelude.Run.{ok, fatal_if, returned, ok_injective}
use open_peacock.Runtime.{Runtime}
use open_peacock.Float64.{Float64, Rand}
use open_peacock.Hist.Ordered.{OrderedSparse}
use open_peacock.Hist.Ordered.Entries.{entries}
use open_peacock.Hist.Ordered.Order.{IsWellFormed}
use open_peacock.Gibbs.Model.{Model, num_topics}
use open_peacock.Gibbs.Document.{Document}
use open_peacock.Gibbs.Document.Laws.{IsConsistent}
use open_peacock.Gibbs.Sampler.{
  Sampler, build_document_topic_bucket, update_loop, reset_loop, build_topic_word_bucket,
}
use open_peacock.Gibbs.Sampler.Step.{
  choose_topic, neglect_or_consider_word, sample_new_topic, sample_words, sample,
}
use open_peacock.Gibbs.Sampler.Counts.{
  begins, finishes, CountsBeyond, plus, neglected, considered, joined, neglect-hist, consider-hist,
  word-hist,
}
use open_peacock.Gibbs.Sampler.Range.{IsSmall, entries_of-AllSmall, choose_topic-IsSmall}

module _ (go : Runtime) (fl : Float64) where
  open fl use {F, add, mul}

  module _ (rand : Rand F) where
    open rand use {State, float64}

    -- A topic that sampleNewTopic returns is in range.
    new_topic_in_range :
        (s : Sampler F) (h : OrderedSparse) (w t : ℤ) (rng rng' : State) (m : Model F)
        → IsWellFormed h
        → sample_new_topic go fl rand s h w rng ≡ ok (t, m, rng')
        → (pos 0 ≤ℤ t) × IsSmall t
    unfolding sample_new_topic entries
    new_topic_in_range s h w t rng rng' m wf e =
        let draw = mul (float64 rng).0 (
          add (add s.smoothing_only_bucket_size s.document_topic_bucket_size)
            s.topic_word_bucket_size) in
        let ((t₁, m₁), p, e₁) = returned (choose_topic go fl s h w draw) _ e in
        let (u, q, e₂) = returned (fatal_if (ltb_ℤ t₁ (pos 0) || leb_ℤ (num_topics m₁) t₁)) _ e₁ in
        subst (λ x. (pos 0 ≤ℤ x) × IsSmall x) (ap (λ x. x.0) (ok_injective e₂))
          (
            not_negative t₁ (leb_ℤ (num_topics m₁) t₁) q,
            choose_topic-IsSmall go fl s h w t₁ draw m₁
                (entries_of-AllSmall h.topics h.counts wf.same_length wf.valid) p,
          )
      where
        not_negative :
            (t : ℤ) (b : Bool) {u : Unit {0}} → fatal_if (ltb_ℤ t (pos 0) || b) ≡ ok u → pos 0 ≤ℤ t
        not_negative t b q = elim (Bool-cases (ltb_ℤ t (pos 0))) [
          | inl r ↦ cc (rw r at q)
          | inr r ↦ above t r
        ]
          where
            above : (t : ℤ) → ltb_ℤ t (pos 0) ≡ false → pos 0 ≤ℤ t
            above t r = ground arith

    ends :
        {x y : Sampler F × OrderedSparse × State × List ℤ} {k : ℤ → ℕ} {n : ℕ}
        → CountsBeyond x.1 k x.3
        → length x.3 ≡ n
        → x ≡ y
        → CountsBeyond y.1 k y.3 × (length y.3 ≡ n)
    ends {x} {y} {k} {n} c l same =
        (subst (λ x. CountsBeyond x.1 k x.3) same c, sym (ap (λ x. length x.3) same) ∙ l)

    -- The loop of Sample replaces each of the old topics in the histogram by the new one.
    sample_words-CountsBeyond :
        (ws ts : List ℤ) (s s' : Sampler F) (h h' : OrderedSparse) (rng rng' : State) (us : List ℤ)
        (k : ℤ → ℕ)
        → length ws ≡ length ts
        → CountsBeyond h k ts
        → sample_words go fl rand ws ts s h rng ≡ ok (s', h', rng', us)
        → CountsBeyond h' k us × (length us ≡ length ts)
    unfolding sample_words
    sample_words-CountsBeyond [] [] s s' h h' rng rng' us k l c e = ends c refl (ok_injective e)
    sample_words-CountsBeyond [] (t ∷ ts) s s' h h' rng rng' us k l c e = absurd (omega arith)
    sample_words-CountsBeyond (w ∷ ws) [] s s' h h' rng rng' us k l c e = absurd (omega arith)
    sample_words-CountsBeyond (w ∷ ws) (t ∷ ts) s s' h h' rng rng' us k l c e =
        let ((s₁, h₁), p₁, e₁) = returned (neglect_or_consider_word go fl s h w t true) _ e in
        let (s₂, p₂, e₂) = returned (build_topic_word_bucket go fl s₁ w) _ e₁ in
        let ((u, m, rng₁), p₃, e₃) = returned (sample_new_topic go fl rand s₂ h₁ w rng) _ e₂ in
        let ((s₃, h₂), p₄, e₄) =
          returned (neglect_or_consider_word go fl (record s₂ { model = m }) h₁ w u false) _ e₃ in
        let ((s₄, h₃, rng₂, us₁), p₅, e₅) =
          returned (sample_words go fl rand ws ts s₃ h₂ rng₁) _ e₄ in
        let c₁ = neglect_step s s₁ h h₁ w t k ts c p₁ in
        let (low, high) = new_topic_in_range s₂ h₁ w u rng rng₁ m c₁.well_formed p₃ in
        let c₂ = consider_step (record s₂ { model = m }) s₃ h₁ h₂ w u k ts low high c₁ p₄ in
        let (c₃, l₃) =
          sample_words-CountsBeyond ws ts s₃ s₄ h₂ h₃ rng₁ rng₂ us₁ (plus k u) (omega arith) c₂
            p₅ in
        ends (joined h₃ u k us₁ c₃) (omega (arith, l₃)) (ok_injective e₅)
      where
        neglect_step :
            (s s₁ : Sampler F) (h h₁ : OrderedSparse) (w t : ℤ) (k : ℤ → ℕ) (ts : List ℤ)
            → CountsBeyond h k (t ∷ ts)
            → neglect_or_consider_word go fl s h w t true ≡ ok (s₁, h₁)
            → CountsBeyond h₁ k ts
        neglect_step s s₁ h h₁ w t k ts c p =
            let (m, d, q) = word-hist go fl s s₁ h h₁ w t true p in
            neglected h h₁ t k ts c (neglect-hist s.model m s.diff d h h₁ w t q)

        consider_step :
            (s s₁ : Sampler F) (h h₁ : OrderedSparse) (w t : ℤ) (k : ℤ → ℕ) (ts : List ℤ)
            → pos 0 ≤ℤ t
            → IsSmall t
            → CountsBeyond h k ts
            → neglect_or_consider_word go fl s h w t false ≡ ok (s₁, h₁)
            → CountsBeyond h₁ (plus k t) ts
        consider_step s s₁ h h₁ w t k ts low high c p =
            let (m, d, q) = word-hist go fl s s₁ h h₁ w t false p in
            considered h h₁ t k ts low high c (consider-hist s.model m s.diff d h h₁ w t q)

    -- A Sample that returns on a consistent document leaves a consistent document with the same words:
    -- each word has a topic, and the histogram counts these topics.
    pub sample-IsConsistent :
        (s s' : Sampler F) (d d' : Document) (rng rng' : State)
        → IsConsistent d
        → sample go fl rand s d rng ≡ ok (s', d', rng')
        → IsConsistent d' × (d'.words ≡ d.words)
    unfolding sample
    sample-IsConsistent s s' d d' rng rng' c e =
        let (s₁, p₁, e₁) = returned (build_document_topic_bucket go fl s d.topic_hist) _ e in
        let (s₂, p₂, e₂) =
          returned (update_loop go fl d.topic_hist.topics d.topic_hist.counts s₁) _ e₁ in
        let ((s₃, h, rng₁, ts), p₃, e₃) =
          returned (sample_words go fl rand d.words d.topics s₂ d.topic_hist rng) _ e₂ in
        let (s₄, p₄, e₄) = returned (reset_loop go fl h.topics s₃) _ e₃ in
        let (c₁, l) =
          sample_words-CountsBeyond d.words d.topics s₂ s₃ d.topic_hist h rng rng₁ ts (λ j. 0)
            c.as_many (begins d.topic_hist d.topics c.counts) p₃ in
        subst (λ x. IsConsistent x × (x.words ≡ d.words)) (ap (λ x. x.1) (ok_injective e₄))
          (record { as_many = c.as_many ∙ sym l; counts = finishes h ts c₁ }, refl)
