-- ===== src/Hist/Ordered/Units.antt =====
-- OrderedSparse.Inc and Dec by one, as the sampler and the documents call them: a call that returns
-- on a well-formed histogram is correct without further conditions.
use open_peacock.Prelude.{
  ◌≡◌, sym, ◌∙◌, subst, inl, inr, true, false, some, [], ◌∷◌, length, length-map, arith, lt→ltb,
  Option-cases, Bool-cases,
}
use open_peacock.Prelude.Int.{ℤ, pos, ◌+ℤ◌, ◌-ℤ◌, ◌≤ℤ◌, ◌<ℤ◌, leb_ℤ, +ℤ_parts, -ℤ_parts}
use open_peacock.Prelude.Word.{sub32, max_int32, sub32-max, IsInt32}
use open_peacock.Prelude.Run.{ok, panic, ◌>>=◌}
use open_peacock.Map.{Map, lookup}
use open_peacock.Hist.Ordered.{OrderedSparse, inc, dec, raise, find_index}
use open_peacock.Hist.Ordered.Entries.{
  entries, of_entries, of_entries-entries, rev_append, length-rev_append, topics_of, Search,
  find_index-Search,
}
use open_peacock.Hist.Ordered.Moves.{load_here}
use open_peacock.Hist.Ordered.Order.{IsEntry, IsWellFormed, All}
use open_peacock.Hist.Ordered.Inc.{Fits, Raised, ordered_inc_correct, inc_guards}
use open_peacock.Hist.Ordered.Dec.{Lowered, ordered_dec_correct, ordered_dec-missing}

-- The overflow test of a known topic panics.
raise_panics :
    (r l : Map ℤ) (t v c : ℤ)
    → leb_ℤ (sub32 max_int32 t) v ≡ true
    → raise (of_entries (rev_append r ((t, v) ∷ l))) (length r) t c ≡ panic
unfolding raise
raise_panics r l t v c h = rw (
  length-map (rev_append r ((t, v) ∷ l)) (λ e. e.0),
  lt→ltb (length r) (length (rev_append r ((t, v) ∷ l)))
      (omega (arith, length-rev_append r ((t, v) ∷ l))),
  load_here (λ e. e.1) r l (t, v),
  ◌>>=◌,
  h,
)

-- The count of a topic that has an entry.
entry_of_lookup :
    (es : Map ℤ) (t v : ℤ) → All IsEntry es → lookup t es ≡ some v → (pos 1 ≤ℤ v) × (v ≤ℤ max_int32)
unfolding lookup
entry_of_lookup [] t v h e = cc
entry_of_lookup ((k, w) ∷ es) t v h e = ground (arith, entry_of_lookup es t v h.1)

guard_passed :
    (v t : ℤ)
    → pos 0 ≤ℤ t
    → t ≤ℤ max_int32
    → leb_ℤ (sub32 max_int32 t) v ≡ false
    → (v <ℤ max_int32 -ℤ t) × (v +ℤ pos 1 ≤ℤ max_int32)
guard_passed v t h m e =
    let g = rw (sub32-max t (is_int32 t h m) h) at e in
    let less = below v (max_int32 -ℤ t) g in
    (less, omega (arith, less, -ℤ_parts max_int32 t, +ℤ_parts v (pos 1)))
  where
    is_int32 : (t : ℤ) → pos 0 ≤ℤ t → t ≤ℤ max_int32 → IsInt32 t
    is_int32 t h m = ground arith

    below : (v b : ℤ) → leb_ℤ b v ≡ false → v <ℤ b
    below v b e = ground arith

-- A known topic whose overflow test panics.
inc_panics :
    (t : ℤ) (r l : Map ℤ) (v : ℤ)
    → pos 0 ≤ℤ t
    → t ≤ℤ max_int32
    → find_index (topics_of (rev_append r ((t, v) ∷ l))) t ≡ length r
    → leb_ℤ (sub32 max_int32 t) v ≡ true
    → inc (of_entries (rev_append r ((t, v) ∷ l))) t (pos 1) ≡ panic
inc_panics t r l v h m p q =
    inc_guards (of_entries (rev_append r ((t, v) ∷ l))) t (pos 1) h m (omega arith) (omega arith)
    ∙ rw (p, raise_panics r l t v (pos 1) q, ◌>>=◌)

inc-Fits :
    (es : Map ℤ) (t : ℤ) {o' : OrderedSparse}
    → pos 0 ≤ℤ t
    → t ≤ℤ max_int32
    → inc (of_entries es) t (pos 1) ≡ ok o'
    → Search t es (find_index (topics_of es) t)
    → Fits es t (pos 1)
inc-Fits es t h m e (Search.missing p absent) v u = cc
inc-Fits es t h m e (Search.found r v l s p u) w found =
    let same : v ≡ w = cc in
    subst (λ (x : ℤ). (x <ℤ max_int32 -ℤ t) × (x +ℤ pos 1 ≤ℤ max_int32)) same
      (elim (Bool-cases (leb_ℤ (sub32 max_int32 t) v)) [
        | inl q ↦ cc (
            inc_panics t r l v h m
              (subst (λ (x : Map ℤ). find_index (topics_of x) t ≡ length r) s p) q)
        | inr q ↦ guard_passed v t h m q
      ])

-- An Inc by one that returns has added one at the topic.
pub inc_one :
    (o : OrderedSparse) (t : ℤ) {o' : OrderedSparse}
    → IsWellFormed o
    → pos 0 ≤ℤ t
    → t ≤ℤ max_int32
    → inc o t (pos 1) ≡ ok o'
    → Raised o t (pos 1) o'
inc_one o t {o'} wf h m e =
    let fits =
      inc-Fits (entries o) t h m
        (subst (λ (x : OrderedSparse). inc x t (pos 1) ≡ ok o')
          (sym (of_entries-entries o wf.same_length)) e)
        (find_index-Search t (entries o)) in
    let (p, run, raised) = ordered_inc_correct o t (pos 1) wf (omega arith) fits in
    let same : p ≡ o' = cc in subst (λ (x : OrderedSparse). Raised o t (pos 1) x) same raised

-- A Dec by one that returns has taken one off the topic.
pub dec_one :
    (o : OrderedSparse) (t : ℤ) {o' : OrderedSparse}
    → IsWellFormed o
    → pos 0 ≤ℤ t
    → t ≤ℤ max_int32
    → dec o t (pos 1) ≡ ok o'
    → Lowered o t (pos 1) o'
dec_one o t {o'} wf h m e = elim (Option-cases (lookup t (entries o))) [
  | inl q ↦ cc (sym e ∙ ordered_dec-missing o t (pos 1) wf.same_length (omega arith) q)
  | inr (v, q) ↦
      let enough = entry_of_lookup (entries o) t v wf.valid q in
      let (p, run, low) = ordered_dec_correct o t (pos 1) v wf (omega arith) q enough.0 in
      let same : p ≡ o' = cc in subst (λ (x : OrderedSparse). Lowered o t (pos 1) x) same low
]
