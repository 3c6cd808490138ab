-- ===== src/Gibbs/Accessor/Select.antt =====
-- core/gibbs/model_accessor.go: the words that NewModelAccessor takes from the heap.
use mathlib.Core.List.{Permᴰ}
use mathlib.Core.List.Permᴰ
use open_peacock.Prelude.{ℕ, suc, ◌≡◌, refl, ap, ◌∙◌, Option, List, [], ◌∷◌, ◌++◌, length, min}
use open_peacock.Prelude.Int.{pos}
use open_peacock.Prelude.Run.{Run, ok, ◌>>=◌}
use open_peacock.Runtime.{Runtime}
use open_peacock.Hist.Interface.{Hist}
use open_peacock.Gibbs.Accessor.{WordFreq, word_freq}

pub Perm-length : {A : Type 0} {xs ys : List A} → Permᴰ xs ys → length xs ≡ length ys
Perm-length Permᴰ.nil = refl
Perm-length (Permᴰ.cons e p) = ap suc (Perm-length p)
Perm-length (Permᴰ.swap e f) = refl
Perm-length (Permᴰ.trans p q) = Perm-length p ∙ Perm-length q

-- The words from index `word` on, each with its frequency.
abbrev pub frequencies : Runtime → ℕ → List (Option Hist) → Run (List WordFreq)
frequencies go word [] = ok []
frequencies go word (hist ∷ hists) = word_freq go hist >>= λ freq.
    frequencies go (suc word) hists >>= λ wfs. ok (record { word = pos word; freq = freq } ∷ wfs)

-- The heap and the words that are no longer in it are all the words so far; it has `cached` words as
-- soon as there are so many.
abbrev Splits : ℕ → List WordFreq → List WordFreq → Type 0
Splits cached seen h =
    (dropped : List WordFreq) × Permᴰ (h ++ dropped) seen × (length h ≡ min cached (length seen))
