-- ===== src/Train/Multi/Stride.antt =====
-- cmd/multithread/multithread.go: the loop over every `shards`-th document reads and writes no other.
use native.Mathlib.Nat
use open_peacock.Prelude.{
  ℕ, zero, suc, ◌+◌, ◌-◌, ◌*◌, ◌%◌, ◌<◌, ◌≡◌, refl, sym, ap, ◌∙◌, Bool, true, false, some, List, [],
  ◌∷◌, length, get_elem?, arith,
}
use open_peacock.Prelude.Run.{ok, ◌>>=◌, returned, ok_injective}
use open_peacock.Runtime.{Runtime, Heaps}
use open_peacock.Float64.{Float64, Rand}
use open_peacock.Gibbs.Document.{Document}
use open_peacock.Gibbs.Sampler.{Sampler}
use open_peacock.Gibbs.Sampler.Step.{sample}
use open_peacock.Train.Multi.{sample_stride}

-- The documents that the loop samples after `skip` others.
abbrev pub hits : ℕ → ℕ → ℕ → Bool
hits step (suc skip) zero = false
hits step (suc skip) (suc k) = hits step skip k
hits step zero zero = true
hits step zero (suc k) = hits step (step - 1) k

hits_lem : (step skip k : ℕ) → 0 < step → hits step skip k ≡ true → (q : ℕ) × (k ≡ skip + q * step)
hits_lem step (suc skip) zero p e = absurd cc
hits_lem step (suc skip) (suc k) p e = let (q, h) = hits_lem step skip k p e in (q, omega arith)
hits_lem step zero zero p e = (0, omega arith)
hits_lem step zero (suc k) p e =
    let (q, h) = hits_lem step (step - 1) k p e in (suc q, omega (arith, h, p))

-- Each of them has the remainder `skip`.
pub hits-mod : (step skip k : ℕ) → skip < step → hits step skip k ≡ true → k % step ≡ skip
hits-mod step skip k lt e =
    let (q, h) = hits_lem step skip k (omega arith) e in
    ap (λ n. n % step) h ∙ Nat.add-mul-mod_self_right skip q step ∙ Nat.mod-eq_of_lt lt

some_injective : {A : Type 0} {x y : A} → some x ≡ some y → x ≡ y
some_injective e = cc

both :
    {A : Type 0} (d t d₁ t₁ : A) (ds ts es fs : List A) (k : ℕ)
    → (some d ≡ some t → some d₁ ≡ some t₁)
    → ((k : ℕ) → get_elem? ds k ≡ get_elem? ts k → get_elem? es k ≡ get_elem? fs k)
    → get_elem? (d ∷ ds) k ≡ get_elem? (t ∷ ts) k
    → get_elem? (d₁ ∷ es) k ≡ get_elem? (t₁ ∷ fs) k
both d t d₁ t₁ ds ts es fs zero first agree h = first h
both d t d₁ t₁ ds ts es fs (suc k) first agree h = agree k h

module _ (go : Runtime) (heap : Heaps) (fl : Float64) (rand : Rand (Float64.F fl)) where
  open fl use {F}
  open rand use {State}

  pub sample_stride-length :
      (step skip : ℕ) (ds es : List Document) (s s' : Sampler F) (rng rng' : State)
      → sample_stride go heap fl rand step skip ds s rng ≡ ok (s', es, rng')
      → length es ≡ length ds
  unfolding sample_stride
  sample_stride-length step skip [] es s s' rng rng' e = ap (λ x. length x.1) (sym (ok_injective e))
  sample_stride-length step (suc skip) (d ∷ ds) es s s' rng rng' e =
      let ((s₁, es₁, rng₁), p, e₁) =
        returned (sample_stride go heap fl rand step skip ds s rng) _ e in
      ap (λ x. length x.1) (sym (ok_injective e₁))
      ∙ ap suc (sample_stride-length step skip ds es₁ s s₁ rng rng₁ p)
  sample_stride-length step zero (d ∷ ds) es s s' rng rng' e =
      let ((s₁, d₁, rng₁), p, e₁) = returned (sample go fl rand s d rng) _ e in
      let ((s₂, es₁, rng₂), p₁, e₂) =
        returned (sample_stride go heap fl rand step (step - 1) ds s₁ rng₁) _ e₁ in
      ap (λ x. length x.1) (sym (ok_injective e₂))
      ∙ ap suc (sample_stride-length step (step - 1) ds es₁ s₁ s₂ rng₁ rng₂ p₁)

  -- A document that is not one of them stays.
  pub sample_stride-writes :
      (step skip : ℕ) (ds es : List Document) (s s' : Sampler F) (rng rng' : State) (k : ℕ)
      → sample_stride go heap fl rand step skip ds s rng ≡ ok (s', es, rng')
      → hits step skip k ≡ false
      → get_elem? es k ≡ get_elem? ds k
  unfolding sample_stride
  sample_stride-writes step skip [] es s s' rng rng' k e h =
      ap (λ x. get_elem? x.1 k) (sym (ok_injective e))
  sample_stride-writes step (suc skip) (d ∷ ds) es s s' rng rng' k e h =
      let ((s₁, es₁, rng₁), p, e₁) =
        returned (sample_stride go heap fl rand step skip ds s rng) _ e in
      ap (λ x. get_elem? x.1 k) (sym (ok_injective e₁))
      ∙ elim k
            as (λ k.
              hits step (suc skip) k ≡ false → get_elem? (d ∷ es₁) k ≡ get_elem? (d ∷ ds) k) [
                | zero ↦ λ h. refl
                | suc j ↦ λ h. sample_stride-writes step skip ds es₁ s s₁ rng rng₁ j p h
              ]
          h
  sample_stride-writes step zero (d ∷ ds) es s s' rng rng' k e h =
      let ((s₁, d₁, rng₁), p, e₁) = returned (sample go fl rand s d rng) _ e in
      let ((s₂, es₁, rng₂), p₁, e₂) =
        returned (sample_stride go heap fl rand step (step - 1) ds s₁ rng₁) _ e₁ in
      ap (λ x. get_elem? x.1 k) (sym (ok_injective e₂))
      ∙ elim k as (λ k. hits step zero k ≡ false → get_elem? (d₁ ∷ es₁) k ≡ get_elem? (d ∷ ds) k) [
        | zero ↦ λ h. absurd cc
        | suc j ↦ λ h. sample_stride-writes step (step - 1) ds es₁ s₁ s₂ rng₁ rng₂ j p₁ h
      ]
          h

  -- The loop on another corpus of that length, with the same documents to sample, does the same: it
  -- ends alike, and where the corpora agree, so do the results.
  pub sample_stride-reads :
      (step skip : ℕ) (ds ts es : List Document) (s s' : Sampler F) (rng rng' : State)
      → length ds ≡ length ts
      → ((k : ℕ) → hits step skip k ≡ true → get_elem? ds k ≡ get_elem? ts k)
      → sample_stride go heap fl rand step skip ds s rng ≡ ok (s', es, rng')
      → (fs : List Document) × (sample_stride go heap fl rand step skip ts s rng
          ≡ ok (s', fs, rng'))
        × ((k : ℕ) → get_elem? ds k ≡ get_elem? ts k → get_elem? es k ≡ get_elem? fs k)
  unfolding sample_stride
  sample_stride-reads step skip [] [] es s s' rng rng' l same e = (es, e, λ k h. refl)
  sample_stride-reads step skip [] (t ∷ ts) es s s' rng rng' l same e = absurd (omega (arith, l))
  sample_stride-reads step skip (d ∷ ds) [] es s s' rng rng' l same e = absurd (omega (arith, l))
  sample_stride-reads step (suc skip) (d ∷ ds) (t ∷ ts) es s s' rng rng' l same e =
      let ((s₁, es₁, rng₁), p, e₁) =
        returned (sample_stride go heap fl rand step skip ds s rng) _ e in
      let (fs₁, q, agree) =
        sample_stride-reads step skip ds ts es₁ s s₁ rng rng₁ (omega (arith, l))
          (λ k h. same (suc k) h) p in
      let ends : (s₁, t ∷ fs₁, rng₁) ≡ (s', t ∷ fs₁, rng') =
        ap (λ x. (x.0, t ∷ fs₁, x.2)) (ok_injective e₁) in
      (
        t ∷ fs₁,
        rw q (ap ok ends),
        λ k h.
            ap (λ x. get_elem? x.1 k) (sym (ok_injective e₁))
            ∙ both d t d t ds ts es₁ fs₁ k (λ r. r) agree h,
      )
  sample_stride-reads step zero (d ∷ ds) (t ∷ ts) es s s' rng rng' l same e =
      let ((s₁, d₁, rng₁), p, e₁) = returned (sample go fl rand s d rng) _ e in
      let ((s₂, es₁, rng₂), p₁, e₂) =
        returned (sample_stride go heap fl rand step (step - 1) ds s₁ rng₁) _ e₁ in
      let (fs₁, q, agree) =
        sample_stride-reads step (step - 1) ds ts es₁ s₁ s₂ rng₁ rng₂ (omega (arith, l))
          (λ k h. same (suc k) h) p₁ in
      let here : t ≡ d = sym (some_injective (same 0 refl)) in
      let ends : (s₂, d₁ ∷ fs₁, rng₂) ≡ (s', d₁ ∷ fs₁, rng') =
        ap (λ x. (x.0, d₁ ∷ fs₁, x.2)) (ok_injective e₂) in
      (
        d₁ ∷ fs₁,
        rw (here, p, ◌>>=◌, q) (ap ok ends),
        λ k h.
            ap (λ x. get_elem? x.1 k) (sym (ok_injective e₂))
            ∙ both d t d₁ d₁ ds ts es₁ fs₁ k (λ r. refl) agree h,
      )
