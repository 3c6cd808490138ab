-- ===== src/Utils/Corpus/Laws.antt =====
-- core/utils/io.go: the documents that LoadCorpusOrDie keeps.
use open_peacock.Prelude.{
  ℕ, ◌≡◌, ◌≢◌, refl, sym, ap, ◌∙◌, Bool, true, false, none, some, List, [], ◌∷◌, map, length,
  String, if◌then◌else◌,
}
use open_peacock.Prelude.Int.{ℤ, pos, ◌+ℤ◌, ◌≤ℤ◌}
use open_peacock.Prelude.Word.{max_int32}
use open_peacock.Prelude.Run.{ok, ◌>>=◌}
use open_peacock.Float64.{Rand}
use open_peacock.Gibbs.Document
use open_peacock.Gibbs.Document.{Document, initialize_document}
use open_peacock.Gibbs.Document.Laws.{IsConsistent, known, initialize_document-IsConsistent}
use open_peacock.Gibbs.Vocab.{Vocabulary, id}
use open_peacock.Utils.Corpus.{is_kept, corpus_loop, load_corpus_or_die}
use open_peacock.Train.Documents.{AllConsistent, all_words}

-- The ids of the known words of a line.
abbrev pub line_ids : Vocabulary → List String → List ℤ
line_ids v tokens = known (map (λ t. (id v t).0) tokens)

-- Those of the lines, each ended by a newline, whose number of known words is in the bounds, as ids.
abbrev pub kept_lines : Vocabulary → ℤ → ℤ → List (List String) → List (List ℤ)
kept_lines v min max [] = []
kept_lines v min max (l ∷ lines) =
    if is_kept min max (pos (length (line_ids v l)))
    then line_ids v l ∷ kept_lines v min max lines
    else kept_lines v min max lines

-- Topics and words of a line together are at most the largest int32.
abbrev pub AllShort : ℤ → List (List String) → Type 0
AllShort topics [] = Unit
AllShort topics (l ∷ lines) = (topics +ℤ pos (length l) ≤ℤ max_int32) × AllShort topics lines

module _ {F : Type 0} (rand : Rand F) where
  open rand use {State}

  keep :
      (b : Bool) (d : Document) (ds : List Document) (ws : List ℤ) (wss : List (List ℤ))
      → IsConsistent d
      → d.words ≡ ws
      → AllConsistent ds
      → all_words ds ≡ wss
      → AllConsistent (if b then d ∷ ds else ds)
        × (all_words (if b then d ∷ ds else ds) ≡ (if b then ws ∷ wss else wss))
  keep true d ds ws wss c p cs ps = ((c, cs), cc)
  keep false d ds ws wss c p cs ps = (cs, ps)

  corpus_loop-returns :
      (v : Vocabulary) (topics min max : ℤ) (lines : List (List String)) (rng : State)
      → pos 1 ≤ℤ topics
      → AllShort topics lines
      → (ds : List Document) × (rng' : State) × (corpus_loop rand v topics min max lines rng
          ≡ ok (ds, rng'))
        × AllConsistent ds
        × (all_words ds ≡ kept_lines v min max lines)
  unfolding corpus_loop Document.len
  corpus_loop-returns v topics min max [] rng p short = ([], rng, refl, tt, refl)
  corpus_loop-returns v topics min max (l ∷ lines) rng p short =
      let (d, rng₁, run, c, ws) =
        initialize_document-IsConsistent rand l (λ t. (id v t).0) topics rng p short.0 in
      let (ds, rng₂, run', cs, wss) = corpus_loop-returns v topics min max lines rng₁ p short.1 in
      let (both, words) =
        keep (is_kept min max (Document.len d)) d ds (line_ids v l) (kept_lines v min max lines) c
          ws cs wss in
      (
        _,
        rng₂,
        rw (corpus_loop, run, ◌>>=◌, run'),
        both,
        words
            ∙ ap
                (λ (n : ℕ).
                  if is_kept min max (pos n)
                  then line_ids v l ∷ kept_lines v min max lines
                  else kept_lines v min max lines)
                (ap length ws),
      )

  -- Take a file that can be read to its end, of which only the lines that end with a newline count: the
  -- text behind the last newline, whatever it is, makes no document. When there is a topic, no such
  -- line is too long for int32, and the number of known words of at least one is in the bounds,
  -- LoadCorpusOrDie returns a consistent document for each of these lines that is in the bounds, in
  -- their order, with the ids of its known words.
  pub load_corpus-returns :
      (E : Type 0) (v : Vocabulary) (topics min max : ℤ) (lines : List (List String))
      (rest : List String) (rng : State)
      → pos 1 ≤ℤ topics
      → AllShort topics lines
      → kept_lines v min max lines ≢ []
      → (ds : List Document) × (rng' : State) × (load_corpus_or_die rand {E = E}
            (some (record { lines = lines; rest = rest; error = none }))
            v
            topics
            min
            max
            rng
          ≡ ok (ds, rng'))
        × AllConsistent ds
        × (all_words ds ≡ kept_lines v min max lines)
  unfolding load_corpus_or_die
  load_corpus-returns E v topics min max lines rest rng p short some_line =
      let (ds, rng', run, cs, ws) = corpus_loop-returns v topics min max lines rng p short in
      let (d, rest', is) = not_empty ds (λ e. some_line (sym ws ∙ ap all_words e)) in
      (ds, rng', rw (load_corpus_or_die, run, ◌>>=◌, is), cs, ws)
    where
      not_empty :
          (ds : List Document) → ds ≢ [] → (d : Document) × (r : List Document) × (ds ≡ d ∷ r)
      not_empty [] h = absurd (h refl)
      not_empty (d ∷ r) h = (d, r, refl)
