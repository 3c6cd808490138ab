-- ===== src/Gibbs/Sampler/Range.antt =====
-- core/gibbs/sampler.go: the topics that sampleNewTopic draws are int32.
use open_peacock.Prelude.{
  ℕ, suc, ◌≡◌, ap, subst, inl, inr, Option, List, [], ◌∷◌, length, arith, if◌then◌else◌, Bool-cases,
}
use open_peacock.Prelude.Int.{ℤ, pos, negsuc, ◌≤ℤ◌}
use open_peacock.Prelude.Word.{int32, max_int32, IsInt32, int32-IsInt32}
use open_peacock.Prelude.Run.{ok, returned, ok_injective}
use open_peacock.Runtime.{Runtime}
use open_peacock.Float64.{Float64}
use open_peacock.Hist.Ordered.{OrderedSparse}
use open_peacock.Hist.Ordered.Entries.{entries_of}
use open_peacock.Hist.Ordered.Order.{IsEntry, All}
use open_peacock.Hist.Interface
use open_peacock.Hist.Traverse.{for_each_inv}
use open_peacock.Gibbs.Model.{Model, word_topic_hist}
use open_peacock.Gibbs.Sampler.{Sampler, load_at}
use open_peacock.Gibbs.Sampler.Step.{choose_topic, pick_document, pick_smoothing, pick_topic_word}

-- No topic is above the largest int32.
abbrev pub IsSmall : ℤ → Type 0
IsSmall t = t ≤ℤ max_int32

abbrev pub AllSmall : List ℤ → Type 0
AllSmall [] = Unit
AllSmall (t ∷ ts) = IsSmall t × AllSmall ts

pub int32-IsSmall : (z : ℤ) → IsSmall (int32 z)
int32-IsSmall z = small (int32 z) (int32-IsInt32 z)
  where
    small : (z : ℤ) → IsInt32 z → IsSmall z
    small z h = ground arith

pub entries_of-AllSmall :
    (ts cs : List ℤ) → length ts ≡ length cs → All IsEntry (entries_of ts cs) → AllSmall ts
unfolding entries_of
entries_of-AllSmall [] cs p h = tt
entries_of-AllSmall (t ∷ ts) [] p h = absurd (omega arith)
entries_of-AllSmall (t ∷ ts) (c ∷ cs) p h = (h.0.1, entries_of-AllSmall ts cs (omega arith) h.1)

module _ (go : Runtime) (fl : Float64) where
  open fl use {F, of_int, add, mul, sub, le, lt}

  pick_document-IsSmall :
      (factors : List F) (ts : List ℤ) (draw : F) (n t : ℤ)
      → AllSmall ts
      → IsSmall n
      → pick_document go fl factors ts draw n ≡ ok t
      → IsSmall t
  unfolding pick_document
  pick_document-IsSmall factors [] draw n t h m e = subst IsSmall (ok_injective e) m
  pick_document-IsSmall factors (u ∷ ts) draw n t h m e =
      let (x, p, e₁) = returned (load_at factors u) _ e in
      elim (Bool-cases (le (sub draw x) (of_int (pos 0)))) [
        | inl q ↦ subst IsSmall (ok_injective (rw q at e₁)) h.0
        | inr q ↦ pick_document-IsSmall factors ts (sub draw x) n t h.1 m (rw q at e₁)
      ]

  pick_smoothing-IsSmall :
      (factors : List F) (draw : F) (i : ℕ) (t : ℤ)
      → pick_smoothing go fl factors draw i ≡ ok t
      → IsSmall t
  unfolding pick_smoothing
  pick_smoothing-IsSmall [] draw i t e = cc
  pick_smoothing-IsSmall (x ∷ factors) draw i t e =
      elim (Bool-cases (lt (of_int (pos 0)) (sub draw x))) [
        | inl q ↦
            pick_smoothing-IsSmall factors (sub draw x) (suc i) t (rw (pick_smoothing, q) at e)
        | inr q ↦ subst IsSmall (ok_injective (rw (pick_smoothing, q) at e)) (int32-IsSmall (pos i))
      ]

  pick_topic_word-IsSmall :
      (factors : List F) (t c : ℤ) (s s' : F × ℤ) (e : Option (Unit {0}))
      → IsSmall s.1
      → pick_topic_word go fl factors t c s ≡ ok (s', e)
      → IsSmall s'.1
  unfolding pick_topic_word
  pick_topic_word-IsSmall factors t c (draw, n) s' e h r =
      let (x, p, r₁) = returned (load_at factors t) _ r in
      elim (Bool-cases (le (sub draw x) (of_int (pos 0)))) [
        | inl q ↦ subst IsSmall (ap (λ y. y.0.1) (ok_injective (rw q at r₁))) (int32-IsSmall t)
        | inr q ↦ subst IsSmall (ap (λ y. y.0.1) (ok_injective (rw q at r₁))) h
      ]

  -- Which of the buckets the topic was drawn from.
  pub choose_topic-IsSmall :
      (s : Sampler F) (h : OrderedSparse) (w t : ℤ) (draw : F) (m : Model F)
      → AllSmall h.topics
      → choose_topic go fl s h w draw ≡ ok (t, m)
      → IsSmall t
  unfolding choose_topic
  choose_topic-IsSmall s h w t draw m small e =
      elim (Bool-cases (lt draw s.topic_word_bucket_size)) [
        | inl q ↦
            let ((wh, m₁), p, e₁) = returned (word_topic_hist s.model w) _ (rw q at e) in
            let (((d, t₁), b), p₁, e₂) =
              returned
                (Interface.for_each go (pick_topic_word go fl s.topic_word_bucket_factors) wh
                  (draw, negsuc 0))
                _ e₁ in
            subst IsSmall (ap (λ x. x.0) (ok_injective e₂)) (
              for_each_inv (λ x. IsSmall x.1) (pick_topic_word go fl s.topic_word_bucket_factors)
                (pick_topic_word-IsSmall s.topic_word_bucket_factors) go wh (draw, negsuc 0) (d, t₁)
                b (omega arith) p₁)
        | inr q ↦
            let rest = sub draw s.topic_word_bucket_size in
            let (t₁, p, e₁) =
              returned
                (if lt rest s.document_topic_bucket_size
                  then pick_document go fl s.document_topic_bucket_factors h.topics rest (negsuc 0)
                  else pick_smoothing go fl s.smoothing_only_bucket_factors
                      (sub rest s.document_topic_bucket_size) 0)
                _ (rw q at e) in
            subst IsSmall (ap (λ x. x.0) (ok_injective e₁)) (below rest t₁ p)
      ]
    where
      below :
          (rest : F) (t : ℤ)
          → (if lt rest s.document_topic_bucket_size
              then pick_document go fl s.document_topic_bucket_factors h.topics rest (negsuc 0)
              else pick_smoothing go fl s.smoothing_only_bucket_factors
                  (sub rest s.document_topic_bucket_size)
                  0)
            ≡ ok t
          → IsSmall t
      below rest t p = elim (Bool-cases (lt rest s.document_topic_bucket_size)) [
        | inl r ↦
            pick_document-IsSmall s.document_topic_bucket_factors h.topics rest (negsuc 0) t small
              (omega arith) (rw r at p)
        | inr r ↦
            pick_smoothing-IsSmall s.smoothing_only_bucket_factors
              (sub rest s.document_topic_bucket_size) 0 t (rw r at p)
      ]
