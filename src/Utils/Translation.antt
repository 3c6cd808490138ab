-- ===== src/Utils/Translation.antt =====
-- core/utils/io.go: the translation of the tokens of a vocabulary.
pub mod Laws
use text.Mathlib.Text.{◌==◌}
use open_peacock.Prelude.{
  ℕ, zero, suc, Option, none, some, List, [], ◌∷◌, length, map, String, if◌then◌else◌,
}
use open_peacock.Prelude.Run.{Run, ok, fatal, ◌>>=◌}
use open_peacock.Gibbs.Vocab.{Vocabulary}

-- Trans, a map with each key once.
abbrev pub Trans : Type 0
Trans = List (String × String)

-- `tr[s]` with whether it exists.
unfoldable pub find_word : String → Trans → Option String
find_word s [] = none
find_word s (e ∷ tr) = if s == e.0 then some e.1 else find_word s tr

-- The loop body of TranslatedVocab.
unfoldable pub translate : Trans → String → String
unfolding find_word
translate tr s = elim (find_word s tr) [ some t ↦ t | none ↦ s ]

-- TranslatedVocab: the tokens are replaced in place, the map of the ids is not.
unfoldable pub translated_vocab : Vocabulary → Trans → Vocabulary
unfolding translate
translated_vocab v tr = record v { tokens = map (translate tr) v.tokens }

-- The loop of LoadTranslationOrDie over the fields of the lines; `join` is `strings.Join` with a
-- space.
unfoldable pub load_lines : (List String → String) → List (List String) → Trans → Run Trans
unfolding find_word
load_lines join [] trans = ok trans
load_lines join ([] ∷ lines) trans = fatal
load_lines join ((f ∷ []) ∷ lines) trans = fatal
load_lines join ((f ∷ g ∷ fs) ∷ lines) trans = elim (find_word f trans) [
  | some t ↦ fatal
  | none ↦ load_lines join lines ((f, join (g ∷ fs)) ∷ trans)
]

-- LoadTranslationOrDie: a file that cannot be opened is `none`, and the error is the scanner's.
unfoldable pub load_translation_or_die :
    {E : Type 0} → (List String → String) → Option (List (List String) × Option E) → Run Trans
unfolding load_lines
load_translation_or_die join none = fatal
load_translation_or_die join (some (lines, e)) =
    load_lines join lines [] >>= λ trans. elim e [ some x ↦ fatal | none ↦ ok trans ]
