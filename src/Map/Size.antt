-- ===== src/Map/Size.antt =====
-- The number of entries of a map, and maps with the same lookups.
use open_peacock.Prelude.{
  suc, ◌≡◌, refl, sym, ap, ◌∙◌, inl, inr, none, some, [], ◌∷◌, arith, length, Bool-cases,
}
use open_peacock.Prelude.Int.{ℤ, eqb_ℤ, eqb_refl}
use open_peacock.Map.{Map, lookup, erase, IsMap}
use open_peacock.Map.Laws.{lookup-erase, lookup_congr, erase-IsMap}

module _ {V : Type 0} where
  erase_absent : (k : ℤ) (m : Map V) → lookup k m ≡ none → erase k m ≡ m
  unfolding lookup erase
  erase_absent k [] h = refl
  erase_absent k ((i, w) ∷ m) h = ground (arith, erase_absent k m)

  -- Deleting a key that is there takes one entry off.
  pub length-erase :
      (k : ℤ) (m : Map V) {v : V}
      → IsMap m
      → lookup k m ≡ some v
      → length m ≡ suc (length (erase k m))
  unfolding lookup erase
  length-erase k [] h e = cc
  length-erase k ((i, w) ∷ m) {v} h e = elim (Bool-cases (eqb_ℤ k i)) [
    | inl q ↦ rw q (
        ap suc
          (ap (λ (x : Map V). length x) (sym (erase_absent k m (rw (lookup_congr k i m q) h.0)))))
    | inr q ↦ rw q (ap suc (length-erase k m {v = v} h.1 (ground (arith, q, e))))
  ]

  pub lookup-nil : (m : Map V) → ((k : ℤ) → lookup k m ≡ none) → m ≡ []
  unfolding lookup
  lookup-nil [] h = refl
  lookup-nil ((i, w) ∷ m) h = absurd (ground (arith, h i))

  -- Every entry of `m` is an entry of `n`.
  abbrev pub IsWithin : Map V → Map V → Type 0
  IsWithin m n = (k : ℤ) (v : V) → lookup k m ≡ some v → lookup k n ≡ some v

  IsWithin-tail :
      (k : ℤ) (v : V) (m n : Map V)
      → IsMap ((k, v) ∷ m)
      → IsWithin ((k, v) ∷ m) n
      → IsWithin m (erase k n)
  unfolding lookup
  IsWithin-tail k v m n h s j w e =
      ground (arith, s j w, lookup-erase j k n, lookup_congr j k m, e, h)

  erased-IsWithin : (k : ℤ) (n : Map V) → IsWithin (erase k n) n
  erased-IsWithin k n j w e = ground (arith, lookup-erase j k n, e)

  -- Of two maps of one size, one of which is within the other, the lookups are equal.
  pub same_of_within :
      (m n : Map V)
      → IsMap m
      → IsMap n
      → length m ≡ length n
      → IsWithin m n
      → (j : ℤ) → lookup j n ≡ lookup j m
  unfolding lookup
  same_of_within [] [] hm hn l s j = refl
  same_of_within [] (e ∷ n) hm hn l s j = absurd (omega arith)
  same_of_within ((k, v) ∷ m) n hm hn l s j =
      let found = s k v (rw (eqb_refl k)) in
      let ih =
        same_of_within m (erase k n) hm.1 (erase-IsMap k n hn)
          (omega (arith, length-erase k n hn found)) (IsWithin-tail k v m n hm s) j in
      ground (arith, ih, lookup-erase j k n, lookup_congr j k n, found)

  -- Maps with equal lookups have one size.
  pub length_of_same :
      (m n : Map V) → IsMap m → IsMap n → ((j : ℤ) → lookup j n ≡ lookup j m) → length m ≡ length n
  unfolding lookup
  length_of_same [] n hm hn s = ap (λ (x : Map V). length x) (sym (lookup-nil n s))
  length_of_same ((k, v) ∷ m) n hm hn s =
      let found : lookup k n ≡ some v = s k ∙ rw (eqb_refl k) in
      let ih =
        length_of_same m (erase k n) hm.1 (erase-IsMap k n hn)
          λ j. ground (arith, s j, lookup-erase j k n, lookup_congr j k m, hm) in
      omega (arith, ih, length-erase k n hn found)
