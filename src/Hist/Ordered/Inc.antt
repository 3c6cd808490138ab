-- ===== src/Hist/Ordered/Inc.antt =====
-- OrderedSparse.Inc: on a well-formed histogram it adds the count at the topic and keeps the order.
use open_peacock.Prelude.{
  ℕ, ◌≡◌, sym, ap, ◌∙◌, subst, inl, inr, false, none, some, [], ◌∷◌, ◌++◌, arith, length,
  length-map, if◌then◌else◌, ltb, lt→ltb, Bool-cases,
}
use mathlib.Core.List.{map-append, append-nil}
use open_peacock.Prelude.Int.{
  ℤ, pos, ◌+ℤ◌, ◌-ℤ◌, ◌≤ℤ◌, ◌<ℤ◌, ltb_ℤ, leb_ℤ, eqb_ℤ, eqb→eq, +ℤ_parts, zero_+ℤ,
}
use open_peacock.Prelude.Word.{add32, sub32, max_int32, IsInt32, int32_id, sub32-max, add32_fits_le}
use open_peacock.Prelude.Run.{ok, ◌>>=◌}
use open_peacock.Map.{Map, lookup, IsMap}
use open_peacock.Hist.Visit.{Adds}
use open_peacock.Hist.Sparse.{value}
use open_peacock.Hist.Sparse.Whole.{value_absent}
use open_peacock.Hist.Ordered.{OrderedSparse, find_index, raise, settle_left, inc}
use open_peacock.Hist.Ordered.Entries.{
  entries, of_entries, entries-of_entries, of_entries-entries, rev_append, length-rev_append,
  append-rev_append, Search, find_index-Search, topics_of,
}
use open_peacock.Hist.Ordered.Moves.{load_here, write_count, rise, rise_others, shift_left-rise}
use open_peacock.Hist.Ordered.Order.{
  All, AllLe, IsDescending, IsEntry, IsWellFormed, All-remove, AllLe-mono, IsDescending-suffix,
  IsDescending-remove, rise_fits, remove_entry, placed-IsWellFormed, placed_value, value_of_lookup,
}

-- The entries after an entry `x` has been moved up from between `r` and `l`.
abbrev pub risen : Map ℤ → ℤ × ℤ → Map ℤ → Map ℤ
risen r x l = rev_append (rise r x l).0 (x ∷ (rise r x l).1)

settle_left-risen :
    (r l : Map ℤ) (t c : ℤ)
    → settle_left (of_entries (rev_append r ((t, c) ∷ l))) (length r) t
      ≡ ok (of_entries (risen r (t, c) l))
unfolding settle_left
settle_left-risen r l t c =
    let (s, run, final) = shift_left-rise r (t, c) (t, c) l in
    rw (load_here (λ e. e.1) r l (t, c), ◌>>=◌, run, ◌>>=◌) (ap ok final)

-- Inc of a known topic: the guard names the topic, and the raised entry moves up.
raise_found :
    (r l : Map ℤ) (t v c : ℤ)
    → v <ℤ sub32 max_int32 t
    → raise (of_entries (rev_append r ((t, v) ∷ l))) (length r) t c
      ≡ ok (of_entries (rev_append r ((t, add32 v c) ∷ l)))
unfolding raise
raise_found r l t v c h =
    rw
      (
        length-map (rev_append r ((t, v) ∷ l)) (λ e. e.0),
        lt→ltb (length r) (length (rev_append r ((t, v) ∷ l)))
            (omega (arith, length-rev_append r ((t, v) ∷ l))),
        load_here (λ e. e.1) r l (t, v),
        ◌>>=◌,
        leb_false v (sub32 max_int32 t) h,
      )
      (ap ok (write_count r l t v (add32 v c)))
  where
    leb_false : (a b : ℤ) → a <ℤ b → leb_ℤ b a ≡ false
    leb_false a b h = ground arith

raise_missing :
    (es : Map ℤ) (t c : ℤ)
    → raise (of_entries es) (length es) t c ≡ ok (of_entries (es ++ (t, c) ∷ []))
unfolding raise
raise_missing es t c = rw (
  length-map es (λ e. e.0),
  ltb_irrefl (length es),
  map-append (λ (e : ℤ × ℤ). e.0) es ((t, c) ∷ []),
  map-append (λ (e : ℤ × ℤ). e.1) es ((t, c) ∷ []),
)
  where
    ltb_irrefl : (n : ℕ) → ltb n n ≡ false
    ltb_irrefl n = ground arith

-- What Inc has made of a well-formed histogram: the count added at the topic, and nothing else.
pub record Raised (o : OrderedSparse) (t c : ℤ) (o' : OrderedSparse) : Type 0 where
  pub well_formed : IsWellFormed o'
  pub adds : Adds (value (entries o)) t c (value (entries o'))

-- The move of a raised or new entry `x`, seen from the entries `es` before.
risen-Raised :
    (es r l : Map ℤ) (t v c : ℤ)
    → IsMap (rev_append r l)
    → lookup t (rev_append r l) ≡ none
    → All IsEntry (rev_append r l)
    → IsDescending (rev_append r l)
    → IsEntry (t, v +ℤ c)
    → AllLe (v +ℤ c) l
    → ((k : ℤ) → value es k ≡ (if eqb_ℤ k t then v else value (rev_append r l) k))
    → Raised (of_entries es) t c (of_entries (risen r (t, v +ℤ c) l))
risen-Raised es r l t v c unique fresh valid ordered entry above before =
    let (a, b) = rise r (t, v +ℤ c) l in
    let same = rise_others r (t, v +ℤ c) l in
    let (near, far) = rise_fits r (t, v +ℤ c) l above in
    let unique' = rw (← same) at unique in
    let fresh' = rw (← same) at fresh in
    record {
      well_formed =
          placed-IsWellFormed a b (t, v +ℤ c) unique' fresh' (rw (← same) at valid)
            (rw (← same) at ordered) entry near far;
      adds = λ k.
          rw (entries-of_entries es, entries-of_entries (risen r (t, v +ℤ c) l))
            (ground (arith, rw same at (placed_value a b (t, v +ℤ c) unique' fresh' k), before k));
    }

pub inc_guards :
    (o : OrderedSparse) (t c : ℤ)
    → pos 0 ≤ℤ t
    → t ≤ℤ max_int32
    → pos 1 ≤ℤ c
    → c ≤ℤ max_int32
    → inc o t c ≡ (
        raise o (find_index o.topics t) t c >>= λ raised.
        settle_left raised (find_index o.topics t) t)
unfolding inc
inc_guards o t c ht mt hc mc = rw (
  int32_id t (ground arith),
  int32_id c (ground arith),
  ltb_false t (pos 0) ht,
  leb_false c (pos 0) (omega arith),
  ltb_false max_int32 c mc,
)
  where
    ltb_false : (a b : ℤ) → b ≤ℤ a → ltb_ℤ a b ≡ false
    ltb_false a b h = ground arith

    leb_false : (a b : ℤ) → b <ℤ a → leb_ℤ a b ≡ false
    leb_false a b h = ground arith

-- The overflow guard of Inc at a topic with count `v`, and the sum within int32.
abbrev pub Fits : Map ℤ → ℤ → ℤ → Type 0
Fits es t c = (v : ℤ) → lookup t es ≡ some v → (v <ℤ max_int32 -ℤ t) × (v +ℤ c ≤ℤ max_int32)

module _ (t c : ℤ) (ht : pos 0 ≤ℤ t) (mt : t ≤ℤ max_int32) (hc : pos 1 ≤ℤ c)
    (mc : c ≤ℤ max_int32) where
  inc_found :
      (r l : Map ℤ) (v : ℤ)
      → find_index (topics_of (rev_append r ((t, v) ∷ l))) t ≡ length r
      → IsInt32 (v +ℤ c)
      → v <ℤ max_int32 -ℤ t
      → inc (of_entries (rev_append r ((t, v) ∷ l))) t c ≡ ok (of_entries (risen r (t, v +ℤ c) l))
  inc_found r l v p fits guard =
      inc_guards (of_entries (rev_append r ((t, v) ∷ l))) t c ht mt hc mc
      ∙ rw
          (
            p,
            raise_found r l t v c (rw (sub32-max t (is_int32 t ht mt) ht) guard),
            ◌>>=◌,
            int32_id (v +ℤ c) fits,
          )
          (settle_left-risen r l t (v +ℤ c))
    where
      is_int32 : (t : ℤ) → pos 0 ≤ℤ t → t ≤ℤ max_int32 → IsInt32 t
      is_int32 t h m = ground arith

  inc_missing :
      (es : Map ℤ)
      → find_index (topics_of es) t ≡ length es
      → inc (of_entries es) t c ≡ ok (of_entries (risen (rev_append es []) (t, c) []))
  inc_missing es p =
      inc_guards (of_entries es) t c ht mt hc mc
      ∙ rw (p, raise_missing es t c, ◌>>=◌, append-rev_append es ((t, c) ∷ []), length_reversed es)
          (settle_left-risen (rev_append es []) [] t c)
    where
      length_reversed : (es : Map ℤ) → length es ≡ length (rev_append es [])
      length_reversed es = omega (arith, length-rev_append es [])

pub found_before :
    (r l : Map ℤ) (t v : ℤ)
    → IsMap (rev_append r ((t, v) ∷ l))
    → (k : ℤ)
    → value (rev_append r ((t, v) ∷ l)) k ≡ (if eqb_ℤ k t then v else value (rev_append r l) k)
found_before r l t v m k =
    value_of_lookup (rev_append r ((t, v) ∷ l)) (rev_append r l) k t v
      (unfold lookup in sym ((remove_entry r l (t, v) m).1 k))

Raised-found :
    (t c : ℤ) (r l : Map ℤ) (v : ℤ)
    → pos 1 ≤ℤ c
    → v +ℤ c ≤ℤ max_int32
    → IsMap (rev_append r ((t, v) ∷ l))
    → All IsEntry (rev_append r ((t, v) ∷ l))
    → IsDescending (rev_append r ((t, v) ∷ l))
    → Raised (of_entries (rev_append r ((t, v) ∷ l))) t c (of_entries (risen r (t, v +ℤ c) l))
Raised-found t c r l v hc sum m valid ordered =
    let parts = (remove_entry r l (t, v) m).0 in
    let (entry, others) = All-remove IsEntry r l (t, v) valid in
    let below = (IsDescending-suffix r ((t, v) ∷ l) ordered).0 in
    risen-Raised (rev_append r ((t, v) ∷ l)) r l t v c parts.1 parts.0 others
      (IsDescending-remove r l (t, v) ordered)
      (entry.0, entry.1, omega (arith, entry.2, hc, +ℤ_parts v c), sum)
      (AllLe-mono v (v +ℤ c) l (omega (arith, hc, +ℤ_parts v c)) below) (found_before r l t v m)

Raised-missing :
    (t c : ℤ) (es : Map ℤ)
    → IsEntry (t, c)
    → lookup t es ≡ none
    → IsMap es
    → All IsEntry es
    → IsDescending es
    → Raised (of_entries es) t c (of_entries (risen (rev_append es []) (t, c) []))
Raised-missing t c es entry absent m valid ordered =
    let whole : rev_append (rev_append es []) [] ≡ es =
      sym (append-rev_append es []) ∙ append-nil es in
    rw (zero_+ℤ c) at (
      risen-Raised es (rev_append es []) [] t (pos 0) c (rw whole m) (rw whole absent)
        (rw whole valid) (rw whole ordered) (rw (zero_+ℤ c) entry) tt
        λ k. rw whole (absent_value es t k absent))
  where
    absent_value :
        (es : Map ℤ) (t k : ℤ)
        → lookup t es ≡ none
        → value es k ≡ (if eqb_ℤ k t then pos 0 else value es k)
    absent_value es t k h = elim (Bool-cases (eqb_ℤ k t)) [
      | inl q ↦ rw (q, eqb→eq k t q) (value_absent t es h)
      | inr q ↦ rw q
    ]

inc_on_entries :
    (es : Map ℤ) (t c : ℤ)
    → IsMap es
    → All IsEntry es
    → IsDescending es
    → IsEntry (t, c)
    → Fits es t c
    → (o' : OrderedSparse) × (inc (of_entries es) t c ≡ ok o') × Raised (of_entries es) t c o'
inc_on_entries es t c m valid ordered (ht, mt, hc, mc) fits = go (find_index-Search t es)
  where
    go :
        Search t es (find_index (topics_of es) t)
        → (o' : OrderedSparse) × (inc (of_entries es) t c ≡ ok o') × Raised (of_entries es) t c o'
    go (Search.missing p absent) = (
      of_entries (risen (rev_append es []) (t, c) []),
      inc_missing t c ht mt hc mc es p,
      Raised-missing t c es (ht, mt, hc, mc) absent m valid ordered,
    )
    go (Search.found r v l h p u) =
        let (guard, sum) = fits v u in
        let entry = (All-remove IsEntry r l (t, v) (subst (All IsEntry) h valid)).0 in
        (
          of_entries (risen r (t, v +ℤ c) l),
          subst (λ (x : Map ℤ). inc (of_entries x) t c ≡ ok (of_entries (risen r (t, v +ℤ c) l)))
              (sym h)
              (inc_found t c ht mt hc mc r l v
                (subst (λ (x : Map ℤ). find_index (topics_of x) t ≡ length r) h p)
                (add32_fits_le v c (omega (arith, entry.2)) (omega (arith, hc)) sum) guard),
          subst (λ (x : Map ℤ). Raised (of_entries x) t c (of_entries (risen r (t, v +ℤ c) l)))
              (sym h)
              (Raised-found t c r l v hc sum (subst IsMap h m) (subst (All IsEntry) h valid)
                (subst IsDescending h ordered)),
        )

-- OrderedSparse.Inc on a well-formed histogram, for a topic and a count in range, a sum within int32
-- and an old count below the largest int32 less the topic (the guard of the code): it returns a
-- well-formed histogram, so still in descending order, with the count added at the topic.
pub ordered_inc_correct :
    (o : OrderedSparse) (t c : ℤ)
    → IsWellFormed o
    → IsEntry (t, c)
    → Fits (entries o) t c
    → (o' : OrderedSparse) × (inc o t c ≡ ok o') × Raised o t c o'
ordered_inc_correct o t c wf entry fits =
    subst (λ (x : OrderedSparse). (o' : OrderedSparse) × (inc x t c ≡ ok o') × Raised x t c o')
      (of_entries-entries o wf.same_length)
      (inc_on_entries (entries o) t c wf.is_map wf.valid wf.descending entry fits)
