-- ===== src/Hist/Visit.antt =====
-- The traversal that the three `ForEach` methods share, and the abstract reading of a histogram:
-- a function from topics to counts.
use open_peacock.Prelude.{◌≡◌, Option, none, some, List, [], ◌∷◌, if◌then◌else◌}
use open_peacock.Prelude.Int.{ℤ, ◌+ℤ◌, eqb_ℤ}
use open_peacock.Prelude.Run.{Run, ok, ◌>>=◌}

-- The closure `func(topic int, count int64) error` over a state; `none` is the error nil.
abbrev pub Visitor : Type 0 → Type 0 → Type 0
Visitor S E = ℤ → ℤ → S → Run (S × Option E)

-- `for … { if e := p(topic, count); e != nil { return e } }; return nil`
unfoldable pub visit : {S E : Type 0} → Visitor S E → List (ℤ × ℤ) → S → Run (S × Option E)
visit p [] s = ok (s, none)
visit p ((t, c) ∷ es) s =
    p t c s >>= λ (s', e). elim e [ some x ↦ ok (s', some x) | none ↦ visit p es s' ]

-- `g` is `f` with `c` added at topic `t`.
abbrev pub Adds : (ℤ → ℤ) → ℤ → ℤ → (ℤ → ℤ) → Type 0
Adds f t c g = (j : ℤ) → g j ≡ (if eqb_ℤ j t then f j +ℤ c else f j)
