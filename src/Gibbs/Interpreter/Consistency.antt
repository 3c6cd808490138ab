-- ===== src/Gibbs/Interpreter/Consistency.antt =====
-- core/gibbs/interpreter.go: an iteration of Interpret keeps the document consistent.
use open_peacock.Prelude.{
  ℕ, ◌≡◌, refl, sym, ap, ◌∙◌, subst, inl, inr, false, Option, List, [], ◌∷◌, ◌++◌, length, arith,
  Bool-cases,
}
use open_peacock.Prelude.Int.{ℤ, pos, negsuc, ◌≤ℤ◌, leb_ℤ, ltb_ℤ}
use open_peacock.Prelude.Word.{int32}
use open_peacock.Prelude.Run.{ok, panic_if, returned, ok_injective}
use open_peacock.Runtime.{Runtime}
use open_peacock.Float64.{Float64, Rand}
use open_peacock.Hist.Ordered
use open_peacock.Hist.Ordered.{OrderedSparse}
use open_peacock.Hist.Interface
use open_peacock.Hist.Interface.{ordered}
use open_peacock.Hist.Traverse.{for_each_inv}
use open_peacock.Gibbs.Model.{num_topics}
use open_peacock.Gibbs.Document.{Document}
use open_peacock.Gibbs.Document.Laws.{IsConsistent}
use open_peacock.Gibbs.Sampler.{load_at}
use open_peacock.Gibbs.Sampler.Counts.{
  CountsBeyond, plus, neglected, considered, joined, begins, finishes,
}
use open_peacock.Gibbs.Sampler.Range.{IsSmall, int32-IsSmall}
use open_peacock.Gibbs.Evaluator.{DistCache, get}
use open_peacock.Gibbs.Interpreter.{
  Interpreter, Prob, add_topic, calculate_document_topic_bucket, pick_bucket, pick_prior,
  pick_topic, sample_topic, interpret_words, interpret_round,
}

module _ (go : Runtime) (fl : Float64) where
  open fl use {F, of_int, add, sub, mul, le, lt}

  -- The topics of a bucket are at most the largest int32.
  abbrev AllSmall : List (Prob F) → Type 0
  AllSmall [] = Unit
  AllSmall (p ∷ ps) = IsSmall p.topic × AllSmall ps

  AllSmall-snoc :
      (ps : List (Prob F)) (p : Prob F) → AllSmall ps → IsSmall p.topic → AllSmall (ps ++ p ∷ [])
  AllSmall-snoc [] p h s = (s, tt)
  AllSmall-snoc (q ∷ ps) p h s = (h.0, AllSmall-snoc ps p h.1 s)

  add_topic-AllSmall :
      (smoothing : List F) (t c : ℤ) (s s' : List (Prob F) × F) (e : Option (Unit {0}))
      → AllSmall s.0
      → add_topic go fl smoothing t c s ≡ ok (s', e)
      → AllSmall s'.0
  unfolding add_topic
  add_topic-AllSmall smoothing t c (bucket, sum) s' e h r =
      let (x, p, r₁) = returned (load_at smoothing t) _ r in
      subst (λ (y : (List (Prob F) × F) × Option (Unit {0})). AllSmall y.0.0) (ok_injective r₁)
        (AllSmall-snoc bucket (record { topic = int32 t; prob = mul (of_int c) x }) h
          (int32-IsSmall t))

  bucket-AllSmall :
      (d : Document) (smoothing : List F) (bucket : List (Prob F)) (sum : F)
      → calculate_document_topic_bucket go fl d smoothing ≡ ok (bucket, sum)
      → AllSmall bucket
  unfolding calculate_document_topic_bucket Interface.for_each
  bucket-AllSmall d smoothing bucket sum e =
      let ((s, b), p, e₁) =
        returned
          (Ordered.for_each {E = Unit {0}} (add_topic go fl smoothing) d.topic_hist
            ([], of_int (pos 0)))
          _ e in
      subst (λ (y : List (Prob F) × F). AllSmall y.0) (ok_injective e₁)
        (for_each_inv (λ y. AllSmall y.0) (add_topic go fl smoothing) (add_topic-AllSmall smoothing)
          go (ordered d.topic_hist) ([], of_int (pos 0)) s b tt p)

  pick_bucket-IsSmall :
      (bucket : List (Prob F)) (sample : F) (n : ℤ)
      → AllSmall bucket
      → IsSmall n
      → IsSmall (pick_bucket go fl bucket sample n)
  unfolding pick_bucket
  pick_bucket-IsSmall [] sample n h s = s
  pick_bucket-IsSmall (p ∷ bucket) sample n h s =
      elim (Bool-cases (le (sub sample p.prob) (of_int (pos 0)))) [
        | inl q ↦ rw (pick_bucket, q) h.0
        | inr q ↦ rw (pick_bucket, q) (pick_bucket-IsSmall bucket (sub sample p.prob) n h.1 s)
      ]

  pick_topic-IsSmall :
      (intr : Interpreter F) (bucket : List (Prob F)) (sum sample : F) (smoothing : List F) (t : ℤ)
      → AllSmall bucket
      → pick_topic go fl intr bucket sum smoothing sample ≡ ok t
      → IsSmall t
  unfolding pick_topic
  pick_topic-IsSmall intr bucket sum sample smoothing t h e = elim (Bool-cases (lt sample sum)) [
    | inl q ↦
        subst IsSmall (ok_injective (rw q at e))
          (pick_bucket-IsSmall bucket sample (negsuc 0) h (omega arith))
    | inr q ↦
        let (i, p, e₁) =
          returned (pick_prior go fl smoothing intr.model.model.topic_prior (sub sample sum) 0) _
            (rw q at e) in
        let (u, p₁, e₂) = returned (panic_if (leb_ℤ (num_topics intr.model.model) (pos i))) _ e₁ in
        subst IsSmall (ok_injective e₂) (int32-IsSmall (pos i))
  ]

  module _ (rand : Rand F) where
    open rand use {State, float64}

    sample_topic_in_range :
        (intr : Interpreter F) (d : Document) (w t : ℤ) (smoothing : List F) (rng rng' : State)
        → sample_topic go fl rand intr d w smoothing rng ≡ ok (t, rng')
        → (pos 0 ≤ℤ t) × IsSmall t
    unfolding sample_topic
    sample_topic_in_range intr d w t smoothing rng rng' e =
        let ((bucket, sum), p, e₁) =
          returned (calculate_document_topic_bucket go fl d smoothing) _ e in
        let (prior, p₁, e₂) = returned (load_at intr.smoothing_only_sum w) _ e₁ in
        let sample = mul (float64 rng).0 (add sum prior) in
        let (t₁, p₂, e₃) = returned (pick_topic go fl intr bucket sum smoothing sample) _ e₂ in
        let (u, p₃, e₄) = returned (panic_if (ltb_ℤ t₁ (pos 0))) _ e₃ in
        subst (λ x. (pos 0 ≤ℤ x) × IsSmall x) (ap (λ (x : ℤ × State). x.0) (ok_injective e₄))
          (
            not_negative t₁ p₃,
            pick_topic-IsSmall intr bucket sum sample smoothing t₁
                (bucket-AllSmall d smoothing bucket sum p) p₂,
          )
      where
        not_negative : (t : ℤ) {u : Unit {0}} → panic_if (ltb_ℤ t (pos 0)) ≡ ok u → pos 0 ≤ℤ t
        not_negative t q = elim (Bool-cases (ltb_ℤ t (pos 0))) [
          | inl r ↦ cc (rw r at q)
          | inr r ↦ above t r
        ]
          where
            above : (t : ℤ) → ltb_ℤ t (pos 0) ≡ false → pos 0 ≤ℤ t
            above t r = ground arith

    ends :
        {x y : Document × DistCache F × State × List ℤ} {ws : List ℤ} {k : ℤ → ℕ} {n : ℕ}
        → CountsBeyond x.0.topic_hist k x.3
        → x.0.words ≡ ws
        → length x.3 ≡ n
        → x ≡ y
        → CountsBeyond y.0.topic_hist k y.3 × (y.0.words ≡ ws) × (length y.3 ≡ n)
    ends {x} {y} {ws} {k} {n} c w l same =
        subst
          (λ (y : Document × DistCache F × State × List ℤ).
            CountsBeyond y.0.topic_hist k y.3 × (y.0.words ≡ ws) × (length y.3 ≡ n))
          same (c, w, l)

    -- The loop replaces each of the old topics in the histogram by the new one.
    interpret_words-CountsBeyond :
        (intr : Interpreter F) (ws ts us : List ℤ) (d d' : Document) (cache cache' : DistCache F)
        (rng rng' : State) (k : ℤ → ℕ)
        → length ws ≡ length ts
        → CountsBeyond d.topic_hist k ts
        → interpret_words go fl rand intr ws ts d cache rng ≡ ok (d', cache', rng', us)
        → CountsBeyond d'.topic_hist k us × (d'.words ≡ d.words) × (length us ≡ length ts)
    unfolding interpret_words
    interpret_words-CountsBeyond intr [] [] us d d' cache cache' rng rng' k l c e =
        ends c refl refl (ok_injective e)
    interpret_words-CountsBeyond intr [] (t ∷ ts) us d d' cache cache' rng rng' k l c e =
        absurd (omega arith)
    interpret_words-CountsBeyond intr (w ∷ ws) [] us d d' cache cache' rng rng' k l c e =
        absurd (omega arith)
    interpret_words-CountsBeyond intr (w ∷ ws) (t ∷ ts) us d d' cache cache' rng rng' k l c e =
        let (h, p, e₁) = returned (Ordered.dec d.topic_hist t (pos 1)) _ e in
        let ((dist, cache₁), p₁, e₂) = returned (get go fl cache w) _ e₁ in
        let ((u, rng₁), p₂, e₃) =
          returned (sample_topic go fl rand intr (record d { topic_hist = h }) w dist rng) _ e₂ in
        let (h', p₃, e₄) = returned (Ordered.inc h u (pos 1)) _ e₃ in
        let ((d₁, cache₂, rng₂, us₁), p₄, e₅) =
          returned
            (interpret_words go fl rand intr ws ts (record d { topic_hist = h' }) cache₁ rng₁) _
            e₄ in
        let c₁ = neglected d.topic_hist h t k ts c p in
        let (low, high) =
          sample_topic_in_range intr (record d { topic_hist = h }) w u dist rng rng₁ p₂ in
        let c₂ = considered h h' u k ts low high c₁ p₃ in
        let (c₃, same, l₃) =
          interpret_words-CountsBeyond intr ws ts us₁ (record d { topic_hist = h' }) d₁ cache₁
            cache₂ rng₁ rng₂ (plus k u) (omega arith) c₂ p₄ in
        ends (joined d₁.topic_hist u k us₁ c₃) same (omega (arith, l₃)) (ok_injective e₅)

    -- An iteration of Interpret that returns on a consistent document leaves a consistent document
    -- with the same words.
    pub interpret_round-IsConsistent :
        (intr : Interpreter F) (d d' : Document) (cache cache' : DistCache F) (rng rng' : State)
        → IsConsistent d
        → interpret_round go fl rand intr d cache rng ≡ ok (d', cache', rng')
        → IsConsistent d' × (d'.words ≡ d.words)
    unfolding interpret_round
    interpret_round-IsConsistent intr d d' cache cache' rng rng' c e =
        let ((d₁, cache₁, rng₁, us), p, e₁) =
          returned (interpret_words go fl rand intr d.words d.topics d cache rng) _ e in
        let (c₁, same, l) =
          interpret_words-CountsBeyond intr d.words d.topics us d d₁ cache cache₁ rng rng₁ (λ j. 0)
            c.as_many (begins d.topic_hist d.topics c.counts) p in
        subst (λ (x : Document × DistCache F × State). IsConsistent x.0 × (x.0.words ≡ d.words))
          (ok_injective e₁)
          (
            record {
              as_many = ap length same ∙ c.as_many ∙ sym l;
              counts = finishes d₁.topic_hist us c₁;
            },
            same,
          )
