-- ===== src/Gibbs/Sampler/Access.antt =====
-- core/gibbs: indexing of a slice, read and written.
use open_peacock.Prelude.{
  ℕ, zero, suc, ◌<◌, ◌≡◌, ap, Option, none, some, List, [], ◌∷◌, length, get_elem?, set, arith,
}
use open_peacock.Prelude.Int.{pos}
use open_peacock.Prelude.Run.{ok, ◌>>=◌, or_panic, ok_injective}
use open_peacock.Gibbs.Sampler.{load_at, store_at}

or_panic-some : {A : Type 0} (o : Option A) (x : A) → or_panic o ≡ ok x → o ≡ some x
or_panic-some none x p = cc
or_panic-some (some y) x p = ap some (ok_injective p)

module _ {A : Type 0} where
  pub load_at_found :
      (l : List A) (i : ℕ) {x : A} → load_at l (pos i) ≡ ok x → get_elem? l i ≡ some x
  unfolding load_at
  load_at_found l i {x} e = or_panic-some (get_elem? l i) x e

  pub load_at-some :
      (l : List A) (i : ℕ) (x : A) → get_elem? l i ≡ some x → load_at l (pos i) ≡ ok x
  unfolding load_at
  load_at-some l i x e = rw e

  pub store_at-some :
      (l : List A) (i : ℕ) (x y : A)
      → get_elem? l i ≡ some x
      → store_at l (pos i) y ≡ ok (set l i y)
  unfolding store_at
  store_at-some l i x y e = rw (load_at-some l i x e, ◌>>=◌)

  pub in_bounds : (l : List A) (i : ℕ) (x : A) → get_elem? l i ≡ some x → i < length l
  in_bounds [] i x e = absurd cc
  in_bounds (y ∷ l) zero x e = omega arith
  in_bounds (y ∷ l) (suc i) x e = omega (arith, in_bounds l i x e)
