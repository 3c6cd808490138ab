-- ===== src/Gibbs/Vocab.antt =====
-- core/gibbs/vocab.go: the vocabulary, a sorted slice of tokens and the map back from a token to its
-- index. The scanner and the 64-bit FNV-1a hash are not part of the program: Load takes the fields of
-- each line, and `hash` is a parameter.
pub mod Laws
use Prim.Native.String.{compare as compare_text}
use text.Mathlib.Text.{◌==◌, is_lt}
use open_peacock.Prelude.{
  ℕ, zero, suc, ◌≤◌, Bool, true, false, Option, none, some, List, [], ◌∷◌, ◌++◌, length, get_elem?,
  set, ltb, String, if◌then◌else◌,
}
use open_peacock.Prelude.{◌==◌ as ◌=ℕ=◌}
use open_peacock.Prelude.Int.{ℤ, pos, negsuc, to_index}
use open_peacock.Prelude.Word.{int32}
use open_peacock.Prelude.Run.{Run, ok, panic, fatal, ◌>>=◌, or_panic}
use open_peacock.Runtime.{Runtime}

-- `ids` is nil before the first use.
pub record Vocabulary : Type 0 where
  pub tokens : List String
  pub ids : Option (List (String × ℕ))

-- NewVocabulary
abbrev pub new_vocabulary : Vocabulary
new_vocabulary = record { tokens = []; ids = none }

-- `v.ids[token]`
unfoldable pub id_of : String → List (String × ℕ) → Option ℕ
id_of token [] = none
id_of token (e ∷ ids) = if token == e.0 then some e.1 else id_of token ids

-- The loop of buildIdMap from index `i` on. A later assignment hides an earlier one, as it would
-- replace it.
unfoldable pub assign_ids : ℕ → List String → List (String × ℕ) → List (String × ℕ)
assign_ids i [] ids = ids
assign_ids i (t ∷ tokens) ids = assign_ids (suc i) tokens ((t, i) ∷ ids)

unfoldable pub build_id_map : Vocabulary → Vocabulary
unfolding assign_ids
build_id_map v = record v { ids = some (assign_ids 0 v.tokens []) }

-- Less on the tokens at the two indices.
unfoldable pub less_token : (String → ℕ) → String → String → Bool
less_token hash l r = if hash l =ℕ= hash r then is_lt (compare_text l r) else ltb (hash l) (hash r)

-- Token
unfoldable pub token : Vocabulary → ℤ → Run String
token v id = or_panic (to_index id) >>= λ i. or_panic (get_elem? v.tokens i)

-- The map that Id reads, built if it is nil.
unfoldable pub current_ids : Vocabulary → List (String × ℕ)
unfolding assign_ids
current_ids v = elim v.ids [ some ids ↦ ids | none ↦ assign_ids 0 v.tokens [] ]

-- Id: the index as an int32, and the vocabulary with its map.
unfoldable pub id : Vocabulary → String → ℤ × Vocabulary
unfolding current_ids id_of
id v t = (
  elim (id_of t (current_ids v)) [ some i ↦ int32 (pos i) | none ↦ int32 (negsuc 0) ],
  record v { ids = some (current_ids v) },
)

-- The loop of Load: the first field of each line that has one.
unfoldable pub scan : List (List String) → List String → List String
scan [] tokens = tokens
scan ([] ∷ lines) tokens = scan lines tokens
scan ((f ∷ fs) ∷ lines) tokens = scan lines (tokens ++ f ∷ [])

module _ (go : Runtime) where
  -- Load: `lines` are the fields of the lines that were scanned, `e` the error of the scanner.
  unfoldable pub load :
      {E : Type 0}
      → (String → ℕ)
      → Vocabulary
      → List (List String)
      → Option E
      → Option E × Vocabulary
  unfolding scan less_token build_id_map
  load hash v lines e =
      let read : Vocabulary = record v { tokens = scan lines v.tokens } in
      elim e [
        | some x ↦ (some x, read)
        | none ↦ (
          none,
          build_id_map (record read { tokens = go.sort String (less_token hash) read.tokens }),
        )
      ]
