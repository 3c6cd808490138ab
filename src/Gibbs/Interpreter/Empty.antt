-- ===== src/Gibbs/Interpreter/Empty.antt =====
-- core/gibbs/interpreter.go: the number of iterations that Interpret needs to accumulate anything.
use mathlib.Core.List.{Permᴰ}
use open_peacock.Prelude.{
  ℕ, zero, suc, ◌+◌, ◌≡◌, refl, sym, ap, ◌∙◌, ◌⊎◌, inl, inr, false, Option, none, List, [], String,
  arith, Bool-cases,
}
use open_peacock.Prelude.Int.{ℤ, pos, ◌+ℤ◌, ◌≤ℤ◌, leb_ℤ, ltb_ℤ, +ℤ_parts}
use open_peacock.Prelude.Run.{ok, panic_if, returned, ok_injective}
use open_peacock.Runtime.{Runtime}
use open_peacock.Float64.{Float64, Rand}
use open_peacock.Hist.Visit.{visit}
use open_peacock.Hist.Sparse
use open_peacock.Hist.Sparse.{Sparse, new_sparse}
use open_peacock.Gibbs.Model.{num_topics}
use open_peacock.Gibbs.Document
use open_peacock.Gibbs.Document.{Document, initialize_document}
use open_peacock.Gibbs.Vocab.{id}
use open_peacock.Gibbs.Evaluator.{DistCache, new_dist_cache}
use open_peacock.Gibbs.Interpreter.{
  Interpreter, Prob, InterpretError, less_prob, interpret_round, accumulate_round, interpret_rounds,
  add_prob_of, interpret,
}

nothing_left : {A : Type 0} {ys : List A} → Permᴰ [] ys → ys ≡ []
nothing_left p = empty p refl
  where
    empty : {A : Type 0} {xs ys : List A} → Permᴰ xs ys → xs ≡ [] → ys ≡ []
    empty Permᴰ.nil e = refl
    empty (Permᴰ.cons p q) e = cc
    empty (Permᴰ.swap p q) e = cc
    empty (Permᴰ.trans p q) e = empty q (empty p e)

module _ (go : Runtime) (fl : Float64) (rand : Rand (Float64.F fl)) where
  open fl use {F, of_int}
  open rand use {State}

  -- Iterations up to the burn-in add nothing.
  rounds_idle :
      (intr : Interpreter F) (burnin : ℤ) (n i : ℕ) (d : Document) (cache : DistCache F)
      (rng : State) (acc acc' : Sparse × F)
      → pos (i + n) ≤ℤ burnin +ℤ pos 1
      → interpret_rounds go fl rand intr burnin n i d cache rng acc ≡ ok acc'
      → acc ≡ acc'
  unfolding interpret_rounds accumulate_round
  rounds_idle intr burnin zero i d cache rng acc acc' le e = ok_injective e
  rounds_idle intr burnin (suc n) i d cache rng acc acc' le e =
      let ((d₁, cache₁, rng₁), p, e₁) =
        returned (interpret_round go fl rand intr d cache rng) _ e in
      let (acc₁, q, e₂) =
        returned (accumulate_round go fl rand (ltb_ℤ burnin (pos i)) d₁.topic_hist acc) _ e₁ in
      let same : acc ≡ acc₁ = ok_injective (rw (accumulate_round, idle burnin i n le) at q) in
      same ∙ rounds_idle intr burnin n (suc i) d₁ cache₁ rng₁ acc₁ acc' (omega (arith, le)) e₂
    where
      idle :
          (burnin : ℤ) (i n : ℕ) → pos (i + suc n) ≤ℤ burnin +ℤ pos 1 → ltb_ℤ burnin (pos i) ≡ false
      idle burnin i n le = before burnin i (omega (arith, le, +ℤ_parts burnin (pos 1)))
        where
          before : (b : ℤ) (i : ℕ) → pos i ≤ℤ b → ltb_ℤ b (pos i) ≡ false
          before b i h = ground arith

  for_each-empty :
      (norm : F) (dist : List (Prob F))
      → Sparse.for_each go {E = Unit {0}} (add_prob_of go fl rand norm) new_sparse dist
        ≡ ok (dist, none)
  unfolding Sparse.for_each visit new_sparse
  for_each-empty norm dist =
      ap (λ es. visit (add_prob_of go fl rand norm) es dist) (nothing_left (go.range-perm ℤ []))

  sort-empty : go.sort (Prob F) (less_prob go fl) [] ≡ []
  sort-empty = nothing_left (go.sort-perm (Prob F) (less_prob go fl) [])

  -- With one iteration more than the burn-in, which the guard lets through, or fewer, Interpret
  -- returns the empty distribution whenever it returns one, even for a text of known words.
  pub interpret-empty :
      (source : List String → State) (intr : Interpreter F) (words : List String) (burnin : ℤ)
      (iter : ℕ) (dist : List (Prob F))
      → pos iter ≤ℤ burnin +ℤ pos 1
      → interpret go fl rand source intr words burnin (pos iter) ≡ ok (inr dist)
      → dist ≡ []
  unfolding interpret
  interpret-empty source intr words burnin iter dist le e =
      let (u, p, e₁) = returned (panic_if (leb_ℤ (pos iter) burnin)) _ e in
      let ((d, rng), p₁, e₂) =
        returned
          (initialize_document rand words (λ t. (id intr.vocab t).0) (num_topics intr.model.model)
            (source words))
          _ e₁ in
      elim (Bool-cases (leb_ℤ (Document.len d) (pos 0))) [
        | inl q ↦ cc (rw q at e₂)
        | inr q ↦
            let (acc, p₂, e₃) =
              returned
                (interpret_rounds go fl rand intr burnin iter 0 d (new_dist_cache intr.model) rng
                  (new_sparse, of_int (pos 0)))
                _ (rw q at e₂) in
            let same : (new_sparse, of_int (pos 0)) ≡ acc =
              rounds_idle intr burnin iter 0 d (new_dist_cache intr.model) rng
                (new_sparse, of_int (pos 0)) acc (omega (arith, le)) p₂ in
            let ((ps, b), p₃, e₄) =
              returned (Sparse.for_each go {E = Unit {0}} (add_prob_of go fl rand acc.1) acc.0 []) _
                e₃ in
            let none_added : ps ≡ [] =
              ap (λ (x : List (Prob F) × Option (Unit {0})). x.0)
                (ok_injective (
                  sym p₃
                  ∙ ap
                      (λ (x : Sparse × F).
                        Sparse.for_each go {E = Unit {0}} (add_prob_of go fl rand x.1) x.0 [])
                      (sym same)
                  ∙ for_each-empty (of_int (pos 0)) [])) in
            let sorted : go.sort (Prob F) (less_prob go fl) ps ≡ dist = ending (ok_injective e₄) in
            sym sorted ∙ ap (go.sort (Prob F) (less_prob go fl)) none_added ∙ sort-empty
      ]
    where
      ending :
          {x y : List (Prob F)} → ◌≡◌ {A = InterpretError ⊎ List (Prob F)} (inr x) (inr y) → x ≡ y
      ending e = cc
