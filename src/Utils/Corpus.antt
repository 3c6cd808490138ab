-- ===== src/Utils/Corpus.antt =====
-- core/utils/io.go: the vocabulary, the corpus and the first model of a training. A file is what its
-- reader gives: the decompression and the reader are not part of the program.
pub mod Laws
pub mod First
use open_peacock.Prelude.{
  ℕ, zero, suc, Bool, true, false, ◌&&◌, ◌||◌, Option, none, some, List, [], ◌∷◌, length, map,
  String, if◌then◌else◌,
}
use open_peacock.Prelude.Int.{ℤ, pos, leb_ℤ, ltb_ℤ}
use open_peacock.Prelude.Run.{Run, ok, panic, fatal, ◌>>=◌, ◌>>◌, fatal_if}
use open_peacock.Runtime.{Runtime}
use open_peacock.Float64.{Float64, Rand}
use open_peacock.Gibbs.Model.{Model, new_model}
use open_peacock.Gibbs.Document
use open_peacock.Gibbs.Document.{Document, initialize_document, apply_to_model}
use open_peacock.Gibbs.Vocab.{Vocabulary, new_vocabulary, load, id}

-- A file that could be opened: the fields of its lines that end with a newline, those of the text
-- behind the last newline, and the error that ended the reading, none at the end of the file.
pub record Contents (E : Type 0) : Type 0 where
  pub lines : List (List String)
  pub rest : List String
  pub error : Option E

-- `((minLen > 0 && n >= minLen) || minLen <= 0) && ((maxLen > 0 && n <= maxLen) || maxLen <= 0)`
unfoldable pub is_kept : ℤ → ℤ → ℤ → Bool
is_kept min max n =
    (ltb_ℤ (pos 0) min && leb_ℤ min n || leb_ℤ min (pos 0))
    && (ltb_ℤ (pos 0) max && leb_ℤ n max || leb_ℤ max (pos 0))

-- LoadVocabOrDie: a file that cannot be opened is `none`.
unfoldable pub load_vocab_or_die :
    {E : Type 0} → Runtime → (String → ℕ) → Option (List (List String) × Option E) → Run Vocabulary
load_vocab_or_die go hash none = fatal
load_vocab_or_die go hash (some (lines, e)) =
    let (e', v) = load go hash new_vocabulary lines e in elim e' [ some x ↦ fatal | none ↦ ok v ]

module _ {F : Type 0} (rand : Rand F) where
  open rand use {State}

  -- The loop of LoadCorpusOrDie.
  unfoldable pub corpus_loop :
      Vocabulary → ℤ → ℤ → ℤ → List (List String) → State → Run (List Document × State)
  unfolding is_kept
  corpus_loop v topics min max [] rng = ok ([], rng)
  corpus_loop v topics min max (tokens ∷ lines) rng =
      initialize_document rand tokens (λ t. (id v t).0) topics rng >>= λ (d, rng').
      corpus_loop v topics min max lines rng' >>= λ (ds, rng'').
      ok (if is_kept min max (Document.len d) then d ∷ ds else ds, rng'')

  -- LoadCorpusOrDie: the text behind the last newline is dropped, since ReadString returns it with
  -- the error io.EOF.
  unfoldable pub load_corpus_or_die :
      {E : Type 0}
      → Option (Contents E)
      → Vocabulary
      → ℤ
      → ℤ
      → ℤ
      → State
      → Run (List Document × State)
  unfolding corpus_loop
  load_corpus_or_die none v topics min max rng = fatal
  load_corpus_or_die (some file) v topics min max rng =
      corpus_loop v topics min max file.lines rng >>= λ (corpus, rng'). elim file.error [
        | some x ↦ fatal
        | none ↦ elim corpus [ [] ↦ fatal | d ∷ ds ↦ ok (d ∷ ds, rng') ]
      ]

-- The loop of InitializeModel.
unfoldable pub apply_corpus : {F : Type 0} → List Document → Model F → Run (Model F)
apply_corpus [] m = ok m
apply_corpus (d ∷ corpus) m = apply_to_model d m >>= apply_corpus corpus

-- InitializeModel
unfoldable pub initialize_model :
    Runtime
    → (fl : Float64) → List Document
    → Vocabulary
    → ℤ
    → Float64.F fl
    → Float64.F fl
    → Run (Model (Float64.F fl))
unfolding apply_corpus
initialize_model go fl corpus v topics alpha beta =
    new_model go fl topics (pos (length v.tokens)) alpha beta >>= apply_corpus corpus
