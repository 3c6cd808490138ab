-- ===== src/Train/Documents.antt =====
-- cmd/singlethread and cmd/multithread: the documents stay consistent through a training.
use open_peacock.Prelude.{
  ℕ, zero, suc, ◌≡◌, refl, ap, ◌∙◌, subst, inl, inr, Bool, List, [], ◌∷◌, map, if◌then◌else◌,
  Bool-cases,
}
use open_peacock.Prelude.Int.{ℤ, pos, ltb_ℤ}
use open_peacock.Prelude.Run.{ok, returned, ok_injective}
use open_peacock.Runtime.{Runtime, Heaps}
use open_peacock.Float64.{Float64, Rand}
use open_peacock.Gibbs.Model.{Model}
use open_peacock.Gibbs.Document.{Document}
use open_peacock.Gibbs.Document.Laws.{IsConsistent}
use open_peacock.Gibbs.Sampler.{Sampler, new_sampler}
use open_peacock.Gibbs.Sampler.Step.{sample}
use open_peacock.Gibbs.Sampler.Consistency.{sample-IsConsistent}
use open_peacock.Gibbs.Optimizer.{Optimizer, new_optimizer, collect_document_statistics}
use open_peacock.Train.Single.{
  Flags, sample_corpus, optimize, is_eval_time, evaluate, train_iteration, train_loop, train,
}

-- Every document of the list is consistent.
abbrev pub AllConsistent : List Document → Type 0
AllConsistent [] = Unit
AllConsistent (d ∷ ds) = IsConsistent d × AllConsistent ds

-- The words of each document.
abbrev pub all_words : List Document → List (List ℤ)
all_words = map (λ d. d.words)

-- What sampling makes of a corpus: consistent documents with the words of before.
abbrev pub Sampled : List Document → List Document → Type 0
Sampled ds es = AllConsistent es × (all_words es ≡ all_words ds)

pub Sampled-trans : (ds es fs : List Document) → Sampled ds es → Sampled es fs → Sampled ds fs
Sampled-trans ds es fs p q = (q.0, q.1 ∙ p.1)

pub Sampled-cons :
    (d e : Document) (ds es : List Document)
    → IsConsistent e
    → e.words ≡ d.words
    → Sampled ds es
    → Sampled (d ∷ ds) (e ∷ es)
Sampled-cons d e ds es c w p = ((c, p.0), cc)

module _ (go : Runtime) (heap : Heaps) (fl : Float64) (rand : Rand (Float64.F fl)) where
  open fl use {F}
  open rand use {State}

  sample_corpus-Sampled :
      (collects : Bool) (ds es : List Document) (s s' : Sampler F) (o o' : Optimizer)
      (rng rng' : State)
      → AllConsistent ds
      → sample_corpus go heap fl rand collects ds s o rng ≡ ok (s', o', es, rng')
      → Sampled ds es
  unfolding sample_corpus
  sample_corpus-Sampled collects [] es s s' o o' rng rng' c e =
      subst (λ x. Sampled [] x) (ap (λ x. x.2) (ok_injective e)) (tt, refl)
  sample_corpus-Sampled collects (d ∷ ds) es s s' o o' rng rng' c e =
      let ((s₁, d₁, rng₁), p, e₁) = returned (sample go fl rand s d rng) _ e in
      let (o₁, p₁, e₂) =
        returned (if collects then collect_document_statistics o d₁ else ok o) _ e₁ in
      let ((s₂, o₂, es₁, rng₂), p₂, e₃) =
        returned (sample_corpus go heap fl rand collects ds s₁ o₁ rng₁) _ e₂ in
      let (c₁, w) = sample-IsConsistent go fl rand s s₁ d d₁ rng rng₁ c.0 p in
      subst (λ x. Sampled (d ∷ ds) x) (ap (λ x. x.2) (ok_injective e₃))
        (Sampled-cons d d₁ ds es₁ c₁ w
          (sample_corpus-Sampled collects ds es₁ s₁ s₂ o₁ o₂ rng₁ rng₂ c.1 p₂))

  module _ (exp log : F → F) where
    train_iteration-Sampled :
        (flags : Flags F) (iter : ℕ) (s s' : Sampler F) (ds es : List Document) (rng rng' : State)
        (p : F)
        → AllConsistent ds
        → train_iteration go heap fl rand exp log flags iter s ds rng ≡ ok (s', es, rng', p)
        → Sampled ds es
    unfolding train_iteration
    train_iteration-Sampled flags iter s s' ds es rng rng' p c e =
        let (o, p₁, e₁) = returned (new_optimizer flags.topics) _ e in
        let collects = ltb_ℤ flags.optim_start (pos iter) in
        let ((s₁, o₁, es₁, rng₁), p₂, e₂) =
          returned (sample_corpus go heap fl rand collects ds s o rng) _ e₁ in
        let (s₂, p₃, e₃) = returned (optimize go heap fl rand flags collects s₁ o₁) _ e₂ in
        let (b, p₄, e₄) = returned (is_eval_time iter flags.eval_lag) _ e₃ in
        let (x, p₅, e₅) = returned (evaluate go heap fl rand exp log flags b s₂ es₁) _ e₄ in
        subst (λ x. Sampled ds x) (ap (λ x. x.1) (ok_injective e₅))
          (sample_corpus-Sampled collects ds es₁ s s₁ o o₁ rng rng₁ c p₂)

    train_loop-Sampled :
        (interrupted : ℕ → Bool) (flags : Flags F) (n iter : ℕ) (s s' : Sampler F)
        (ds es : List Document) (rng rng' : State)
        → AllConsistent ds
        → train_loop go heap fl rand exp log interrupted flags n iter s ds rng ≡ ok (s', es, rng')
        → Sampled ds es
    unfolding train_loop
    train_loop-Sampled interrupted flags zero iter s s' ds es rng rng' c e =
        subst (λ x. Sampled ds x) (ap (λ x. x.1) (ok_injective e)) (c, refl)
    train_loop-Sampled interrupted flags (suc n) iter s s' ds es rng rng' c e =
        elim (Bool-cases (interrupted iter)) [
          | inl q ↦
              subst (λ x. Sampled ds x) (ap (λ x. x.1) (ok_injective (rw (train_loop, q) at e)))
                (c, refl)
          | inr q ↦
              let ((s₁, es₁, rng₁, x), p, e₁) =
                returned (train_iteration go heap fl rand exp log flags iter s ds rng) _
                  (rw (train_loop, q) at e) in
              let done = train_iteration-Sampled flags iter s s₁ ds es₁ rng rng₁ x c p in
              Sampled-trans ds es₁ es done
                (train_loop-Sampled interrupted flags n (suc iter) s₁ s' es₁ es rng₁ rng' done.0 e₁)
        ]

    -- When the single-threaded trainer returns, from any model and any consistent documents, and
    -- whether it is interrupted or not, the documents are consistent and have the words of before.
    pub train-Sampled :
        (interrupted : ℕ → Bool) (flags : Flags F) (m m' : Model F) (ds es : List Document)
        (rng : State)
        → AllConsistent ds
        → train go heap fl rand exp log interrupted flags m ds rng ≡ ok (m', es)
        → Sampled ds es
    unfolding train
    train-Sampled interrupted flags m m' ds es rng c e =
        let (s, p, e₁) = returned (new_sampler go fl m) _ e in
        let ((s', es₁, rng'), p₁, e₂) =
          returned
            (train_loop go heap fl rand exp log interrupted flags flags.gibbs_iter 0 s ds rng) _
            e₁ in
        subst (λ x. Sampled ds x) (ap (λ x. x.1) (ok_injective e₂))
          (train_loop-Sampled interrupted flags flags.gibbs_iter 0 s s' ds es₁ rng rng' c p₁)
