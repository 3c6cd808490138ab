-- ===== src/Prelude/Run.antt =====
-- How a Go call ends: it returns, it panics (by `panic` or a run-time error such as an index out of
-- range), or it ends the process by `log.Fatal`.
use open_peacock.Prelude.{◌≡◌, refl, ◌⊎◌, inl, inr, Bool, true, false, Option, none, some}

pub data Run {ℓ} (X : Type ℓ) : Type ℓ where
  panic fatal : Run X
  ok : X → Run X

-- `if cond { panic(…) }`
abbrev pub panic_if : Bool → Run (Unit {0})
panic_if false = ok tt
panic_if true = panic

abbrev pub fatal_if : Bool → Run (Unit {0})
fatal_if false = ok tt
fatal_if true = fatal

-- An access that is out of range panics.
abbrev pub or_panic {ℓ} : {X : Type ℓ} → Option X → Run X
or_panic none = panic
or_panic (some x) = ok x

-- A call as the variable that a proof splits on.
pub Run-cases {ℓ} : {X : Type ℓ} (m : Run X) → ((x : X) × (m ≡ ok x)) ⊎ (m ≡ panic) ⊎ (m ≡ fatal)
Run-cases panic = inr (inl refl)
Run-cases fatal = inr (inr refl)
Run-cases (ok x) = inl (x, refl)

-- Two results of one call are the same value.
pub ok_injective {ℓ} : {X : Type ℓ} {x y : X} → ok x ≡ ok y → x ≡ y
ok_injective e = cc

module _ {ℓ₁ ℓ₂} {X : Type ℓ₁} {Y : Type ℓ₂} where
  -- The rest of the body runs if the call returns.
  infixl 5 ◌>>=◌
  abbrev pub ◌>>=◌ : Run X → (X → Run Y) → Run Y
  panic >>= rest = panic
  fatal >>= rest = fatal
  ok x >>= rest = rest x

module _ {ℓ} {Y : Type ℓ} where
  infixl 5 ◌>>◌
  abbrev pub ◌>>◌ : Run (Unit {0}) → Run Y → Run Y
  call >> rest = call >>= λ _. rest

module _ {ℓ₁ ℓ₂} {X : Type ℓ₁} {Y : Type ℓ₂} where
  -- A body that returned: its first call returned, and the rest did on its value.
  pub returned :
      (call : Run X) (rest : X → Run Y) {y : Y}
      → call >>= rest ≡ ok y
      → (x : X) × (call ≡ ok x) × (rest x ≡ ok y)
  returned panic rest e = cc
  returned fatal rest e = cc
  returned (ok x) rest e = (x, refl, e)
