-- ===== src/Examples/Files.antt =====
-- The theorems on the translation and the log files applied to small files.
use open_peacock.Prelude.{ℕ, ◌≡◌, refl, Option, none, some, List, [], ◌∷◌, String, arith}
use open_peacock.Prelude.Int.{ℤ, pos}
use open_peacock.Prelude.Run.{ok}
use open_peacock.Gibbs.Vocab
use open_peacock.Gibbs.Vocab.{Vocabulary, assign_ids}
use open_peacock.Utils.Translation.{
  Trans, find_word, translate, translated_vocab, load_translation_or_die,
}
use open_peacock.Utils.Translation.Laws.{load_translation-finds, translated_vocab-token}
use open_peacock.Utils.Progress.{LogLine, other, point, plot_log}
use open_peacock.Utils.Progress.Laws.{IsRising, plot_log-IsRising}

-- `strings.Join` of one field
abbrev first : List String → String
first fs = elim fs [ [] ↦ "" | f ∷ r ↦ f ]

abbrev file : List (List String)
file = ("a" ∷ "apple" ∷ []) ∷ ("b" ∷ "book" ∷ []) ∷ []

abbrev words : Trans
words = ("b", "book") ∷ ("a", "apple") ∷ []

read_run : load_translation_or_die {E = Unit} first (some (file, none)) ≡ ok words
unfolding load_translation_or_die
read_run = refl

load_translation_example :
    (◌≡◌ {A = Option (Unit {0})} none none) × (find_word "a" words ≡ some (first ("apple" ∷ [])))
load_translation_example =
    load_translation-finds {E = Unit} first file none words 0 "a" "apple" [] read_run refl

abbrev loaded : Vocabulary
loaded = record { tokens = "a" ∷ "b" ∷ []; ids = some (assign_ids 0 ("a" ∷ "b" ∷ []) []) }

token_run : Vocab.token loaded (pos 1) ≡ ok "b"
unfolding Vocab.token
token_run = refl

translated_vocab_example :
    (k : ℕ) × ((Vocab.id loaded "b").0 ≡ pos k)
    × ((Vocab.id (translated_vocab loaded words) "b").0 ≡ pos k)
    × (Vocab.token (translated_vocab loaded words) (pos k) ≡ ok (translate words "b"))
translated_vocab_example = translated_vocab-token loaded words 1 "b" refl (omega arith) token_run

-- A log file of a training that was started again.
abbrev log : List (LogLine ℕ)
log = point (pos 0) 9 ∷ point (pos 1) 8 ∷ other ∷ point (pos 0) 7 ∷ point (pos 2) 6 ∷ []

abbrev points : List (ℤ × ℕ)
points = (pos 0, 7) ∷ (pos 2, 6) ∷ []

plot_run : plot_log log ≡ ok points
unfolding plot_log
plot_run = refl

plot_log_example : IsRising points
plot_log_example = plot_log-IsRising log points plot_run
