-- ===== src/Utils/Translation/Laws.antt =====
-- core/utils/io.go: what LoadTranslationOrDie has read, and the ids of a translated vocabulary.
use text.Mathlib.Text.{◌==◌}
use text.Mathlib.TextEquality.{eq_iff}
use open_peacock.Prelude.{
  ℕ, zero, suc, ◌≤◌, ◌^◌, ◌≡◌, sym, ap, ◌∙◌, inl, inr, Option, none, some, List, [], ◌∷◌, map,
  length, get_elem?, String, Bool-cases, Option-cases,
}
use open_peacock.Prelude.Int.{pos}
use open_peacock.Prelude.Run.{ok, or_panic, returned, ok_injective}
use open_peacock.Gibbs.Vocab.{Vocabulary, token, id, current_ids, assign_ids}
use open_peacock.Gibbs.Vocab.Laws.{id-token}
use open_peacock.Utils.Translation.{
  Trans, find_word, translate, translated_vocab, load_lines, load_translation_or_die,
}

-- An entry that is there stays, since a second line with its word ends the process.
load_lines-keeps :
    (join : List String → String) (lines : List (List String)) (trans tr : Trans) (s t : String)
    → find_word s trans ≡ some t
    → load_lines join lines trans ≡ ok tr
    → find_word s tr ≡ some t
unfolding load_lines find_word
load_lines-keeps join [] trans tr s t h e = ap (find_word s) (sym (ok_injective e)) ∙ h
load_lines-keeps join ([] ∷ lines) trans tr s t h e = cc
load_lines-keeps join ((f ∷ []) ∷ lines) trans tr s t h e = cc
load_lines-keeps join ((f ∷ g ∷ fs) ∷ lines) trans tr s t h e =
    elim (Option-cases (find_word f trans)) [
      | inr (x, q) ↦ cc (rw (load_lines, q) at e)
      | inl q ↦ elim (Bool-cases (s == f)) [
        | inl r ↦
            let same : s ≡ f = (eq_iff s f).0 r in
            cc (sym h ∙ ap (λ (x : String). find_word x trans) same ∙ q)
        | inr r ↦
            load_lines-keeps join lines ((f, join (g ∷ fs)) ∷ trans) tr s t (rw (find_word, r) h)
              (rw (load_lines, q) at e)
      ]
    ]

load_lines-finds :
    (join : List String → String) (lines : List (List String)) (trans tr : Trans) (i : ℕ)
    (f g : String) (fs : List String)
    → get_elem? lines i ≡ some (f ∷ g ∷ fs)
    → load_lines join lines trans ≡ ok tr
    → find_word f tr ≡ some (join (g ∷ fs))
unfolding load_lines find_word
load_lines-finds join [] trans tr i f g fs h e = cc
load_lines-finds join ([] ∷ lines) trans tr i f g fs h e = cc
load_lines-finds join ((f' ∷ []) ∷ lines) trans tr i f g fs h e = cc
load_lines-finds join ((f' ∷ g' ∷ fs') ∷ lines) trans tr (suc i) f g fs h e =
    elim (Option-cases (find_word f' trans)) [
      | inr (x, q) ↦ cc (rw (load_lines, q) at e)
      | inl q ↦
          load_lines-finds join lines ((f', join (g' ∷ fs')) ∷ trans) tr i f g fs h
            (rw (load_lines, q) at e)
    ]
load_lines-finds join ((f' ∷ g' ∷ fs') ∷ lines) trans tr zero f g fs h e =
    elim (Option-cases (find_word f' trans)) [
      | inr (x, q) ↦ cc (rw (load_lines, q) at e)
      | inl q ↦
          let here : find_word f ((f', join (g' ∷ fs')) ∷ trans) ≡ some (join (g ∷ fs)) =
            let first : f' ≡ f = cc h in
            let others : g' ∷ fs' ≡ g ∷ fs = cc h in
            rw (find_word, (eq_iff f f').1 (sym first))
              (ap (λ (x : List String). some (join x)) others) in
          load_lines-keeps join lines ((f', join (g' ∷ fs')) ∷ trans) tr f (join (g ∷ fs)) here
            (rw (load_lines, q) at e)
    ]

-- When LoadTranslationOrDie returns, the file was read without an error, and the first field of a
-- line with two fields or more is translated to the other fields of that line, joined.
pub load_translation-finds :
    {E : Type 0} (join : List String → String) (lines : List (List String)) (x : Option E)
    (tr : Trans) (i : ℕ) (f g : String) (fs : List String)
    → load_translation_or_die join (some (lines, x)) ≡ ok tr
    → get_elem? lines i ≡ some (f ∷ g ∷ fs)
    → (x ≡ none) × (find_word f tr ≡ some (join (g ∷ fs)))
unfolding load_translation_or_die
load_translation-finds join lines x tr i f g fs e h =
    let (tr', p, e₁) = returned (load_lines join lines []) _ e in
    elim (Option-cases x) [
      | inr (y, q) ↦ cc (rw q at e₁)
      | inl q ↦ (q, load_lines-finds join lines [] tr i f g fs h (p ∙ (rw q at e₁)))
    ]

get_elem?-map :
    (f : String → String) (ts : List String) (i : ℕ) {t : String}
    → get_elem? ts i ≡ some t
    → get_elem? (map f ts) i ≡ some (f t)
get_elem?-map f [] i h = cc
get_elem?-map f (x ∷ ts) zero h = cc
get_elem?-map f (x ∷ ts) (suc i) h = get_elem?-map f ts i h

-- In a loaded vocabulary of at most 2^31 tokens, a token of the file has the same id before and after
-- the vocabulary is translated, and at that id the translated vocabulary has the token's translation.
pub translated_vocab-token :
    (v : Vocabulary) (tr : Trans) (i : ℕ) (t : String)
    → v.ids ≡ some (assign_ids 0 v.tokens [])
    → length v.tokens ≤ 2 ^ 31
    → token v (pos i) ≡ ok t
    → (k : ℕ) × ((id v t).0 ≡ pos k)
      × ((id (translated_vocab v tr) t).0 ≡ pos k)
      × (token (translated_vocab v tr) (pos k) ≡ ok (translate tr t))
unfolding translated_vocab id current_ids token
translated_vocab-token v tr i t built small h = elim (id-token v t (inr built) small) [
  | inl (k, e, g) ↦
      (k, e, rw built (rw built at e), rw (get_elem?-map (translate tr) v.tokens k (at k g)))
  | inr (e, no_t) ↦ absurd (no_t i h)
]
  where
    at : (k : ℕ) → token v (pos k) ≡ ok t → get_elem? v.tokens k ≡ some t
    at k g = out (get_elem? v.tokens k) g
      where
        out : (o : Option String) → or_panic o ≡ ok t → o ≡ some t
        out (some a) h = cc
        out none h = cc
