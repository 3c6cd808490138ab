-- ===== src/Srv/Config/Search.antt =====
-- srv/config.go: the search for an index in a list, which SquadId, SamplerId, LoaderId and
-- AggregatorId share.
use open_peacock.Prelude.{
  ℕ, zero, suc, ◌+◌, ◌<◌, ◌≡◌, refl, sym, subst, ap, ◌∙◌, ◌⊎◌, inl, inr, Bool, true, false, some,
  List, [], ◌∷◌, get_elem?, arith, Bool-cases,
}
use open_peacock.Prelude.Int.{ℤ, pos, negsuc}
use open_peacock.Srv.Config.{index_where}

-- The result of a search: an index at which the test holds and before which it fails, or -1 and the
-- test fails everywhere.
abbrev pub IsFirst {ℓ} : {A : Type ℓ} → (A → Bool) → List A → ℤ → Type ℓ
IsFirst p xs (pos i) =
    ((x : _) × (get_elem? xs i ≡ some x) × (p x ≡ true))
    × ((j : ℕ) (x : _) → j < i → get_elem? xs j ≡ some x → p x ≡ false)
IsFirst p xs (negsuc m) = (m ≡ 0) × ((j : ℕ) (x : _) → get_elem? xs j ≡ some x → p x ≡ false)

module _ {ℓ} {A : Type ℓ} where
  before_cons :
      (p : A → Bool) (y : A) (xs : List A)
      → p y ≡ false
      → ((j : ℕ) (x : A) → get_elem? xs j ≡ some x → p x ≡ false)
      → (j : ℕ) (x : A) → get_elem? (y ∷ xs) j ≡ some x
      → p x ≡ false
  before_cons p y xs q h zero x e = cc
  before_cons p y xs q h (suc j) x e = h j x e

  before_suc :
      (p : A → Bool) (y : A) (xs : List A) {k : ℕ}
      → p y ≡ false
      → ((j : ℕ) (x : A) → j < k → get_elem? xs j ≡ some x → p x ≡ false)
      → (j : ℕ) (x : A) → j < suc k
      → get_elem? (y ∷ xs) j ≡ some x
      → p x ≡ false
  before_suc p y xs q h zero x lt e = cc
  before_suc p y xs q h (suc j) x lt e = h j x (omega arith) e

  index_where_lem :
      (p : A → Bool) (i : ℕ) (xs : List A)
      → ((index_where p i xs ≡ negsuc 0)
          × ((j : ℕ) (x : A) → get_elem? xs j ≡ some x → p x ≡ false))
        ⊎ ((k : ℕ) × (index_where p i xs ≡ pos (i + k))
            × ((x : A) × (get_elem? xs k ≡ some x) × (p x ≡ true))
            × ((j : ℕ) (x : A) → j < k → get_elem? xs j ≡ some x → p x ≡ false))
  unfolding index_where
  index_where_lem p i [] = inl (refl, λ j x e. cc)
  index_where_lem p i (y ∷ xs) = elim (Bool-cases (p y)) [
    | inl q ↦ rw q (inr (0, ap pos (omega arith), (y, refl, q), λ j x lt e. absurd (omega arith)))
    | inr q ↦ rw q (elim (index_where_lem p (suc i) xs) [
      | inl (e, none_holds) ↦ inl (e, before_cons p y xs q none_holds)
      | inr (k, e, found, before) ↦
          inr (suc k, e ∙ ap pos (omega arith), found, before_suc p y xs q before)
    ])
  ]

  pub index_cases :
      (p : A → Bool) (xs : List A)
      → ((index_where p 0 xs ≡ negsuc 0)
          × ((j : ℕ) (x : A) → get_elem? xs j ≡ some x → p x ≡ false))
        ⊎ ((k : ℕ) × (index_where p 0 xs ≡ pos k)
            × ((x : A) × (get_elem? xs k ≡ some x) × (p x ≡ true))
            × ((j : ℕ) (x : A) → j < k → get_elem? xs j ≡ some x → p x ≡ false))
  index_cases p xs = elim (index_where_lem p 0 xs) [
    | inl h ↦ inl h
    | inr (k, e, found, before) ↦ inr (k, e ∙ ap pos (omega arith), found, before)
  ]

  pub index_where-IsFirst : (p : A → Bool) (xs : List A) → IsFirst p xs (index_where p 0 xs)
  index_where-IsFirst p xs = elim (index_cases p xs) [
    | inl (e, h) ↦ subst (IsFirst p xs) (sym e) (refl, h)
    | inr (k, e, found, before) ↦ subst (IsFirst p xs) (sym e) (found, before)
  ]
