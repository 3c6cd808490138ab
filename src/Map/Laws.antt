-- ===== src/Map/Laws.antt =====
-- The laws of the map operations, and what a rearrangement of the entries keeps.
use mathlib.Core.Path.{subst₂}
use mathlib.Core.List.{Permᴰ}
use open_peacock.Prelude.{◌≡◌, refl, ap, ◌∙◌, true, none, some, [], ◌∷◌, arith, if◌then◌else◌}
use open_peacock.Prelude.Int.{ℤ, eqb_ℤ, eqb→eq}
use open_peacock.Map.{Map, lookup, insert, erase, IsMap}

module _ {V : Type 0} where
  pub lookup-insert :
      (j k : ℤ) (v : V) (m : Map V)
      → lookup j (insert k v m) ≡ (if eqb_ℤ j k then some v else lookup j m)
  unfolding lookup insert
  lookup-insert j k v [] = refl
  lookup-insert j k v ((i, w) ∷ m) = ground (arith, lookup-insert j k v m)

  pub lookup-erase :
      (j k : ℤ) (m : Map V) → lookup j (erase k m) ≡ (if eqb_ℤ j k then none else lookup j m)
  unfolding lookup erase
  lookup-erase j k [] = ground arith
  lookup-erase j k ((i, w) ∷ m) = ground (arith, lookup-erase j k m)

  -- Equal keys have equal values.
  pub lookup_congr : (j k : ℤ) (m : Map V) → eqb_ℤ j k ≡ true → lookup j m ≡ lookup k m
  lookup_congr j k m e = ap (λ (i : ℤ). lookup i m) (eqb→eq j k e)

  pub insert-IsMap : (k : ℤ) (v : V) (m : Map V) → IsMap m → IsMap (insert k v m)
  unfolding lookup insert
  insert-IsMap k v [] h = (refl, tt)
  insert-IsMap k v ((i, w) ∷ m) h =
      ground (arith, insert-IsMap k v m h.1, lookup-insert i k v m, lookup_congr k i m)

  pub erase-IsMap : (k : ℤ) (m : Map V) → IsMap m → IsMap (erase k m)
  unfolding lookup erase
  erase-IsMap k [] h = tt
  erase-IsMap k ((i, w) ∷ m) h = ground (arith, erase-IsMap k m h.1, lookup-erase i k m)

  -- `n` is a map with the entries of `m`.
  abbrev pub IsSame : Map V → Map V → Type 0
  IsSame m n = IsMap n × ((k : ℤ) → lookup k n ≡ lookup k m)

  swap_entries : (a b : ℤ × V) (m : Map V) → IsMap (a ∷ b ∷ m) → IsSame (a ∷ b ∷ m) (b ∷ a ∷ m)
  unfolding lookup
  swap_entries (i, v) (j, w) m h = ((ground arith, (ground arith, h.1.1)), λ k. ground arith)

  -- A rearrangement of a map is a map with the same entries.
  pub Perm-lookup : {m n : Map V} → Permᴰ m n → IsMap m → IsSame m n
  unfolding lookup
  Perm-lookup Permᴰ.nil h = (tt, λ k. refl)
  Perm-lookup (Permᴰ.cons {a = a} {b = b} {l₁ = l} {l₂ = r} e p) h =
      let ih = Perm-lookup p h.1 in rw (← e) ((ih.1 a.0 ∙ h.0, ih.0), λ k. rw (ih.1 k))
  Perm-lookup (Permᴰ.swap {a = a} {b = b} {l = l} e f) h =
      subst₂ (λ x y. IsSame (a ∷ b ∷ l) (x ∷ y ∷ l)) f e (swap_entries a b l h)
  Perm-lookup (Permᴰ.trans p q) h =
      let one = Perm-lookup p h in let two = Perm-lookup q one.0 in (two.0, λ k. two.1 k ∙ one.1 k)
