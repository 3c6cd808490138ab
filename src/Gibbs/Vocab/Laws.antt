-- ===== src/Gibbs/Vocab/Laws.antt =====
-- core/gibbs/vocab.go: the map from a token to its index is the inverse of the slice of tokens.
use text.Mathlib.Text.{◌==◌}
use text.Mathlib.TextEquality.{eq_iff}
use open_peacock.Prelude.{
  ℕ, zero, suc, ◌+◌, ◌≤◌, ◌<◌, ◌^◌, ◌≡◌, ◌≢◌, refl, sym, ap, ◌∙◌, ◌⊎◌, inl, inr, true, false,
  Option, none, some, List, [], ◌∷◌, length, get_elem?, String, arith, Bool-cases,
}
use open_peacock.Prelude.Int.{ℤ, pos, negsuc}
use open_peacock.Prelude.Word.{int32, int32_id}
use open_peacock.Prelude.Run.{ok, ◌>>=◌, or_panic}
use open_peacock.Gibbs.Vocab.{Vocabulary, id_of, assign_ids, current_ids, token, id}

assign_ids_lem :
    (t : String) (i : ℕ) (tokens : List String) (ids : List (String × ℕ))
    → ((k : ℕ) × (id_of t (assign_ids i tokens ids) ≡ some (i + k)) × (get_elem? tokens k ≡ some t))
      ⊎ ((id_of t (assign_ids i tokens ids) ≡ id_of t ids)
          × ((j : ℕ) → get_elem? tokens j ≢ some t))
unfolding assign_ids id_of
assign_ids_lem t i [] ids = inr (refl, λ j e. cc)
assign_ids_lem t i (x ∷ tokens) ids = elim (assign_ids_lem t (suc i) tokens ((x, i) ∷ ids)) [
  | inl (k, e, g) ↦ inl (suc k, e ∙ ap some (omega arith), g)
  | inr (e, no_t) ↦ elim (Bool-cases (t == x)) [
    | inl q ↦ inl (0, e ∙ rw (id_of, q) (ap some (omega arith)), ap some (sym ((eq_iff t x).0 q)))
    | inr q ↦ inr (e ∙ rw (id_of, q), absent x tokens q no_t)
  ]
]
  where
    absent :
        (x : String) (tokens : List String)
        → (t == x) ≡ false
        → ((j : ℕ) → get_elem? tokens j ≢ some t)
        → (j : ℕ) → get_elem? (x ∷ tokens) j ≢ some t
    absent x tokens q h zero e =
        let same : x ≡ t = cc e in
        let yes_eq : (t == x) ≡ true = (eq_iff t x).1 (sym same) in cc (sym q ∙ yes_eq)
    absent x tokens q h (suc j) e = h j e

get_elem?-lt : {A : Type 0} (xs : List A) (k : ℕ) {a : A} → get_elem? xs k ≡ some a → k < length xs
get_elem?-lt [] k h = cc
get_elem?-lt (x ∷ xs) zero h = omega arith
get_elem?-lt (x ∷ xs) (suc k) h = omega (arith, get_elem?-lt xs k h)

-- The map is nil, or buildIdMap has made it from the tokens.
abbrev pub IsBuilt : Vocabulary → Type 0
IsBuilt v = (v.ids ≡ none) ⊎ (v.ids ≡ some (assign_ids 0 v.tokens []))

id-found :
    (v : Vocabulary) (t : String) (o : Option ℕ)
    → IsBuilt v
    → id_of t (assign_ids 0 v.tokens []) ≡ o
    → (id v t).0 ≡ elim o as (λ _. ℤ) [ some i ↦ int32 (pos i) | none ↦ int32 (negsuc 0) ]
unfolding id
id-found v t o b e =
    let same : current_ids v ≡ assign_ids 0 v.tokens [] = elim b [
      | inl q ↦ rw (current_ids, q)
      | inr q ↦ rw (current_ids, q)
    ] in
    rw (id, same, e)

-- In a vocabulary of at most 2^31 tokens whose map is nil or built from the tokens, Id returns an
-- index at which Token returns the token, or -1 if Token returns it at no index.
pub id-token :
    (v : Vocabulary) (t : String)
    → IsBuilt v
    → length v.tokens ≤ 2 ^ 31
    → ((i : ℕ) × ((id v t).0 ≡ pos i) × (token v (pos i) ≡ ok t))
      ⊎ (((id v t).0 ≡ negsuc 0) × ((j : ℕ) → token v (pos j) ≢ ok t))
unfolding id_of token
id-token v t b small = elim (assign_ids_lem t 0 v.tokens []) [
  | inl (k, e, g) ↦
      let lt = get_elem?-lt v.tokens k g in
      let fits : int32 (pos k) ≡ pos k = int32_id (pos k) (omega arith) in
      inl (
        k,
        id-found v t (some k) b (e ∙ ap some (omega arith)) ∙ fits,
        rw (token, ◌>>=◌, or_panic, g),
      )
  | inr (e, no_t) ↦ inr (
    id-found v t none b e ∙ int32_id (negsuc 0) (omega arith),
    λ j h. no_t j (out (get_elem? v.tokens j) h),
  )
]
  where
    out : (o : Option String) → or_panic o ≡ ok t → o ≡ some t
    out (some a) h = cc
    out none h = cc
