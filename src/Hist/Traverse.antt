-- ===== src/Hist/Traverse.antt =====
-- ForEach over a histogram as one walk over a list of entries, and what every step keeps.
use open_peacock.Prelude.{◌≡◌, subst, inl, inr, Option, List, [], ◌∷◌, Option-cases}
use open_peacock.Prelude.Int.{ℤ}
use open_peacock.Prelude.Run.{ok, returned}
use open_peacock.Runtime.{Runtime}
use open_peacock.Hist.Visit.{Visitor, visit}
use open_peacock.Hist.Dense
use open_peacock.Hist.Dense.{Dense, enumerate}
use open_peacock.Hist.Sparse
use open_peacock.Hist.Ordered
use open_peacock.Hist.Ordered.{OrderedSparse, for_each_loop}
use open_peacock.Hist.Interface
use open_peacock.Hist.Interface.{Hist, dense, sparse, ordered}

module _ {S E : Type 0} (P : S → Type 0) (p : Visitor S E)
    (keeps : (t c : ℤ) (s s' : S) (e : Option E) → P s → p t c s ≡ ok (s', e) → P s') where
  -- A property that the closure keeps holds after the walk.
  pub visit_inv :
      (es : List (ℤ × ℤ)) (s s' : S) (e : Option E) → P s → visit p es s ≡ ok (s', e) → P s'
  unfolding visit
  visit_inv [] s s' e h r = let same : s ≡ s' = cc in subst P same h
  visit_inv ((t, c) ∷ es) s s' e h r =
      let ((s₁, e₁), q, rest) = returned (p t c s) _ r in
      let h₁ = keeps t c s s₁ e₁ h q in
      elim (Option-cases e₁) [
        | inl o ↦ visit_inv es s₁ s' e h₁ (rw o at rest)
        | inr (x, o) ↦ let same : s₁ ≡ s' = cc (rw o at rest) in subst P same h₁
      ]

  loop_inv :
      (ts cs : List ℤ) (s s' : S) (e : Option E) → P s → for_each_loop p ts cs s ≡ ok (s', e) → P s'
  unfolding for_each_loop
  loop_inv [] cs s s' e h r = let same : s ≡ s' = cc in subst P same h
  loop_inv (t ∷ ts) [] s s' e h r = cc
  loop_inv (t ∷ ts) (c ∷ cs) s s' e h r =
      let ((s₁, e₁), q, rest) = returned (p t c s) _ r in
      let h₁ = keeps t c s s₁ e₁ h q in
      elim (Option-cases e₁) [
        | inl o ↦ loop_inv ts cs s₁ s' e h₁ (rw o at rest)
        | inr (x, o) ↦ let same : s₁ ≡ s' = cc (rw o at rest) in subst P same h₁
      ]

  pub for_each_inv :
      (go : Runtime) (h : Hist) (s s' : S) (e : Option E)
      → P s
      → Interface.for_each go p h s ≡ ok (s', e)
      → P s'
  unfolding Interface.for_each Dense.for_each Sparse.for_each Ordered.for_each
  for_each_inv go (dense d) s s' e h r = visit_inv (enumerate 0 d) s s' e h r
  for_each_inv go (sparse m) s s' e h r = visit_inv (go.range ℤ m) s s' e h r
  for_each_inv go (ordered o) s s' e h r = loop_inv o.topics o.counts s s' e h r
