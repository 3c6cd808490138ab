-- ===== src/Srv/Config/Squads.antt =====
-- srv/config.go: the part of Validate that goes through the squads.
use text.Mathlib.Text.{◌==◌}
use mathlib.Core.Bool.{true≢false}
use text.Mathlib.TextEquality.{eq_iff}
use open_peacock.Prelude.{
  ℕ, suc, ◌≡◌, ◌≢◌, refl, sym, ◌∙◌, ◌⊎◌, inl, inr, ◌↔◌, Bool, true, false, not, List, [], ◌∷◌, ◌++◌,
  length, String, arith, Bool-cases,
}
use open_peacock.Prelude.Int.{pos, eqb_ℤ, leb_ℤ}
use open_peacock.Srv.Config.{Squad, SquadError, is_empty, when, squad_errors, all_squad_errors}

-- A squad with a coordinator and `n` loaders and samplers.
abbrev pub IsComplete : ℕ → Squad → Type 0
IsComplete n s = (s.coordinator ≢ "") × (length s.loaders ≡ n) × (length s.samplers ≡ n)

abbrev pub AllComplete : ℕ → List Squad → Type 0
AllComplete n [] = Unit
AllComplete n (s ∷ squads) = IsComplete n s × AllComplete n squads

whens-nil :
    (a b c : Bool) (x y z : SquadError)
    → when a x ++ when b (y) ++ when c z ≡ []
    → (a ≡ false) × (b ≡ false) × (c ≡ false)
whens-nil a b c x y z h = ground arith

whens-false :
    (a b c : Bool) (x y z : SquadError)
    → a ≡ false
    → b ≡ false
    → c ≡ false
    → when a x ++ when b y ++ when c z ≡ []
whens-false a b c x y z p q r = rw (p, q, r)

not_eqb→eq : (m n : ℕ) → not (eqb_ℤ (pos m) (pos n)) ≡ false → m ≡ n
not_eqb→eq m n h = ground arith

eq→not_eqb : (m n : ℕ) → m ≡ n → not (eqb_ℤ (pos m) (pos n)) ≡ false
eq→not_eqb m n h = ground arith

text_ne→false : (s t : String) → s ≢ t → (s == t) ≡ false
text_ne→false s t h = elim (Bool-cases (s == t)) [
  | inl q ↦ absurd (h ((eq_iff s t).0 q))
  | inr q ↦ q
]

pub text_false→ne : (s t : String) → (s == t) ≡ false → s ≢ t
text_false→ne s t q e = true≢false (sym ((eq_iff s t).1 e) ∙ q)

no_errors : (n i : ℕ) (s : Squad) → IsComplete n s → squad_errors (pos n) i s ≡ []
unfolding squad_errors
no_errors n i s (h, l, m) =
    whens-false _ _ _ _ _ _ (text_ne→false s.coordinator "" h) (eq→not_eqb _ n l) (eq→not_eqb _ n m)

complete : (n i : ℕ) (s : Squad) → squad_errors (pos n) i s ≡ [] → IsComplete n s
unfolding squad_errors
complete n i s h =
    let (p, q, r) = whens-nil _ _ _ _ _ _ h in
    (text_false→ne s.coordinator "" p, not_eqb→eq _ n q, not_eqb→eq _ n r)

pub is_empty→nil {ℓ} : {A : Type ℓ} (xs : List A) → is_empty xs ≡ true → xs ≡ []
is_empty→nil [] h = refl
is_empty→nil (x ∷ xs) h = cc

pub empty_by_length : {A : Type 0} (xs : List A) → leb_ℤ (pos (length xs)) (pos 0) ≡ is_empty xs
empty_by_length [] = refl
empty_by_length (x ∷ xs) = ground arith

pub zero_by_empty : {A : Type 0} (xs : List A) → eqb_ℤ (pos (length xs)) (pos 0) ≡ is_empty xs
zero_by_empty [] = refl
zero_by_empty (x ∷ xs) = ground arith

pub nonempty→ne : {A : Type 0} (xs : List A) → is_empty xs ≡ false → xs ≢ []
nonempty→ne [] h e = cc
nonempty→ne (x ∷ xs) h e = cc

pub List-cases : {A : Type 0} (xs : List A) → (xs ≡ []) ⊎ ((y : A) × (ys : List A) × (xs ≡ y ∷ ys))
List-cases [] = inl refl
List-cases (x ∷ xs) = inr (x, xs, refl)

append-nil : {A : Type 0} (xs ys : List A) → xs ++ ys ≡ [] → (xs ≡ []) × (ys ≡ [])
append-nil [] ys h = (refl, h)
append-nil (x ∷ xs) ys h = cc

pub all_squad_errors-nil :
    (n i : ℕ) (squads : List Squad)
    → (all_squad_errors (pos n) i squads ≡ []) ↔ AllComplete n squads
unfolding all_squad_errors
all_squad_errors-nil n i [] = (λ h. tt, λ h. refl)
all_squad_errors-nil n i (s ∷ squads) = (
  λ h. (
    complete n i s (append-nil _ _ h).0,
    (all_squad_errors-nil n (suc i) squads).0 (append-nil _ _ h).1,
  ),
  λ (h, t). rw (no_errors n i s h, (all_squad_errors-nil n (suc i) squads).1 t),
)
