-- ===== src/Hist/Ordered/Dec.antt =====
-- OrderedSparse.Dec: on a well-formed histogram it takes the count off the topic, keeps the order and
-- drops a topic that reaches zero.
use open_peacock.Prelude.{
  ℕ, ◌<◌, ◌≡◌, sym, ap, ◌∙◌, subst, inl, inr, true, false, none, some, [], ◌∷◌, arith, length,
  length-map, if◌then◌else◌, leb, Bool-cases,
}
use open_peacock.Prelude.Int.{
  ℤ, pos, pos_part, neg_part, ◌+ℤ◌, ◌-ℤ◌, ◌≤ℤ◌, ◌<ℤ◌, ltb_ℤ, leb_ℤ, eqb_ℤ, eqb→eq, +ℤ_parts,
  -ℤ_parts, int_laws, eq_of_parts,
}
use open_peacock.Prelude.Word.{sub32, max_int32, int32_id, sub32_fits}
use open_peacock.Prelude.Run.{ok, panic, ◌>>=◌}
use open_peacock.Map.{Map, lookup, IsMap}
use open_peacock.Hist.Visit.{Adds}
use open_peacock.Hist.Sparse.{value}
use open_peacock.Hist.Sparse.Whole.{value_absent}
use open_peacock.Hist.Ordered.{OrderedSparse, find_index, lower, settle_right, dec}
use open_peacock.Hist.Ordered.Entries.{
  entries, of_entries, entries-of_entries, of_entries-entries, rev_append, length-rev_append,
  Search, find_index-Search, topics_of,
}
use open_peacock.Hist.Ordered.Moves.{load_here, write_count, drift, drift_others}
use open_peacock.Hist.Ordered.Order.{
  All, IsDescending, HeadGe, IsEntry, IsWellFormed, All-remove, All-suffix, IsDescending-suffix,
  IsDescending-head, IsDescending-remove, drift_fits, remove_entry, placed-IsWellFormed,
  placed_value,
}
use open_peacock.Hist.Ordered.Inc.{found_before}
use open_peacock.Hist.Ordered.Sink.{sunk, settle_right-sunk, settle_right-cut}

-- What Dec has made of a well-formed histogram: the count taken off the topic, and nothing else.
pub record Lowered (o : OrderedSparse) (t c : ℤ) (o' : OrderedSparse) : Type 0 where
  pub well_formed : IsWellFormed o'
  pub adds : Adds (value (entries o)) t (pos 0 -ℤ c) (value (entries o'))

abbrev Ends : OrderedSparse → ℤ → ℤ → Type 0
Ends o t c = (o' : OrderedSparse) × (dec o t c ≡ ok o') × Lowered o t c o'

lower_found :
    (r l : Map ℤ) (t v c : ℤ)
    → c ≤ℤ v
    → lower (of_entries (rev_append r ((t, v) ∷ l))) (length r) c
      ≡ ok (of_entries (rev_append r ((t, sub32 v c) ∷ l)))
unfolding lower
lower_found r l t v c h =
    rw
      (
        length-map (rev_append r ((t, v) ∷ l)) (λ e. e.0),
        leb_false (length r) (length (rev_append r ((t, v) ∷ l)))
            (omega (arith, length-rev_append r ((t, v) ∷ l))),
        load_here (λ e. e.1) r l (t, v),
        ◌>>=◌,
        ltb_false v c h,
      )
      (ap ok (write_count r l t v (sub32 v c)))
  where
    leb_false : (a b : ℕ) → a < b → leb b a ≡ false
    leb_false a b h = ground arith

    ltb_false : (a b : ℤ) → b ≤ℤ a → ltb_ℤ a b ≡ false
    ltb_false a b h = ground arith

lower_missing : (es : Map ℤ) (c : ℤ) → lower (of_entries es) (length es) c ≡ panic
unfolding lower
lower_missing es c = rw (length-map es (λ e. e.0), leb_refl (length es))
  where
    leb_refl : (n : ℕ) → leb n n ≡ true
    leb_refl n = ground arith

dec_guards :
    (o : OrderedSparse) (t c : ℤ)
    → pos 0 ≤ℤ t
    → t ≤ℤ max_int32
    → pos 1 ≤ℤ c
    → c ≤ℤ max_int32
    → dec o t c ≡ (
        lower o (find_index o.topics t) c >>= λ lowered.
        settle_right lowered (find_index o.topics t) t)
unfolding dec
dec_guards o t c ht mt hc mc = rw (
  int32_id t (ground arith),
  int32_id c (ground arith),
  ltb_false t (pos 0) ht,
  leb_false c (pos 0) (omega arith),
)
  where
    ltb_false : (a b : ℤ) → b ≤ℤ a → ltb_ℤ a b ≡ false
    ltb_false a b h = ground arith

    leb_false : (a b : ℤ) → b <ℤ a → leb_ℤ a b ≡ false
    leb_false a b h = ground arith

difference_zero : (v c : ℤ) → v -ℤ c ≡ pos 0 → pos 0 ≡ v +ℤ (pos 0 -ℤ c)
difference_zero v c e = eq_of_parts (pos 0) (v +ℤ (pos 0 -ℤ c)) (
    omega (
      arith,
      ap pos_part e,
      ap neg_part e,
      -ℤ_parts v c,
      -ℤ_parts (pos 0) c,
      +ℤ_parts v (pos 0 -ℤ c),
    ))

module _ (t c : ℤ) (ht : pos 0 ≤ℤ t) (mt : t ≤ℤ max_int32) (hc : pos 1 ≤ℤ c) (mc : c ≤ℤ max_int32)
    (r l : Map ℤ) (v : ℤ) (enough : c ≤ℤ v)
    (p : find_index (topics_of (rev_append r ((t, v) ∷ l))) t ≡ length r)
    (m : IsMap (rev_append r ((t, v) ∷ l))) (valid : All IsEntry (rev_append r ((t, v) ∷ l)))
    (ordered : IsDescending (rev_append r ((t, v) ∷ l))) where
  abbrev before : OrderedSparse
  before = of_entries (rev_append r ((t, v) ∷ l))

  dec_settles :
      dec before t c ≡ settle_right (of_entries (rev_append r ((t, v -ℤ c) ∷ l))) (length r) t
  dec_settles =
      let entry = (All-remove IsEntry r l (t, v) valid).0 in
      dec_guards before t c ht mt hc mc
      ∙ rw (
        p,
        lower_found r l t v c enough,
        ◌>>=◌,
        int32_id (v -ℤ c) (sub32_fits v c entry.3 (omega (arith, hc)) enough),
      )

  dec_zero : eqb_ℤ (v -ℤ c) (pos 0) ≡ true → Ends before t c
  dec_zero q =
      let parts = (remove_entry r l (t, v) m).0 in
      let others = (All-remove IsEntry r l (t, v) valid).1 in
      (
        of_entries (rev_append r l),
        dec_settles ∙ settle_right-cut r l t (v -ℤ c) q (All-suffix IsEntry r l others),
        record {
          well_formed = rest_IsWellFormed parts.1 others;
          adds = λ k.
              rw
                (
                  entries-of_entries (rev_append r l),
                  entries-of_entries (rev_append r ((t, v) ∷ l)),
                )
                (vanished k (value_absent t (rev_append r l) parts.0));
        },
      )
    where
      vanished :
          (k : ℤ)
          → value (rev_append r l) t ≡ pos 0
          → value (rev_append r l) k ≡ (
              if eqb_ℤ k t
              then value (rev_append r ((t, v) ∷ l)) k +ℤ (pos 0 -ℤ c)
              else value (rev_append r ((t, v) ∷ l)) k)
      vanished k z = elim (Bool-cases (eqb_ℤ k t)) [
        | inl e ↦
            rw (found_before r l t v m k, e, eqb→eq k t e, z)
              (difference_zero v c (eqb→eq (v -ℤ c) (pos 0) q))
        | inr e ↦ rw (found_before r l t v m k, e)
      ]

      rest_IsWellFormed :
          IsMap (rev_append r l)
          → All IsEntry (rev_append r l)
          → IsWellFormed (of_entries (rev_append r l))
      rest_IsWellFormed a b =
          let same = entries-of_entries (rev_append r l) in
          record {
            same_length =
                length-map (rev_append r l) (λ e. e.0)
                ∙ sym (length-map (rev_append r l) (λ e. e.1));
            is_map = rw same a;
            valid = rw same b;
            descending = rw same (IsDescending-remove r l (t, v) ordered);
          }

  dec_positive : eqb_ℤ (v -ℤ c) (pos 0) ≡ false → Ends before t c
  dec_positive q =
      let x : ℤ × ℤ = (t, v -ℤ c) in
      let parts = (remove_entry r l (t, v) m).0 in
      let (entry, others) = All-remove IsEntry r l (t, v) valid in
      let same = drift_others r x l in
      let fits =
        drift_fits r x l (IsDescending-suffix r ((t, v) ∷ l) ordered).1
          (HeadGe_lower r ((IsDescending-head r l (t, v) ordered))) in
      let unique = rw (← same) at parts.1 in
      let fresh = rw (← same) at parts.0 in
      (
        of_entries (sunk r x l),
        dec_settles ∙ settle_right-sunk r l t (v -ℤ c) q,
        record {
          well_formed =
              placed-IsWellFormed (drift r x l).0 (drift r x l).1 x unique fresh
                (rw (← same) at others) (rw (← same) at (IsDescending-remove r l (t, v) ordered))
                (entry.0, entry.1, left_positive v c q enough, left_bounded v c hc entry.3) fits.0
                fits.1;
          adds = λ k.
              rw
                (
                  entries-of_entries (sunk r x l),
                  entries-of_entries (rev_append r ((t, v) ∷ l)),
                  placed_value (drift r x l).0 (drift r x l).1 x unique fresh k,
                  same,
                )
                (ground (arith, found_before r l t v m k, sub_as_add v c));
        },
      )
    where
      HeadGe_lower : (r : Map ℤ) → HeadGe v r → HeadGe (v -ℤ c) r
      HeadGe_lower [] h = tt
      HeadGe_lower (z ∷ r) h = omega (arith, h, hc, -ℤ_parts v c)

      left_positive : (v c : ℤ) → eqb_ℤ (v -ℤ c) (pos 0) ≡ false → c ≤ℤ v → pos 1 ≤ℤ v -ℤ c
      left_positive v c q h = ground (arith, q, h, -ℤ_parts v c)

      left_bounded : (v c : ℤ) → pos 1 ≤ℤ c → v ≤ℤ max_int32 → v -ℤ c ≤ℤ max_int32
      left_bounded v c h m = omega (arith, -ℤ_parts v c)

      sub_as_add : (v c : ℤ) → v +ℤ (pos 0 -ℤ c) ≡ v -ℤ c
      sub_as_add v c = omega int_laws

-- OrderedSparse.Dec on a well-formed histogram, for a topic and a count in range of which at least that
-- many are there: it returns a well-formed histogram, so still in descending order and with no zero
-- count, with the count taken off the topic.
pub ordered_dec_correct :
    (o : OrderedSparse) (t c v : ℤ)
    → IsWellFormed o
    → IsEntry (t, c)
    → lookup t (entries o) ≡ some v
    → c ≤ℤ v
    → (o' : OrderedSparse) × (dec o t c ≡ ok o') × Lowered o t c o'
ordered_dec_correct o t c v wf (ht, mt, hc, mc) u enough =
    subst (λ (x : OrderedSparse). Ends x t c) (of_entries-entries o wf.same_length)
      (go (entries o) wf.is_map wf.valid wf.descending u (find_index-Search t (entries o)))
  where
    go :
        (es : Map ℤ)
        → IsMap es
        → All IsEntry es
        → IsDescending es
        → lookup t es ≡ some v
        → Search t es (find_index (topics_of es) t)
        → Ends (of_entries es) t c
    go es m valid ordered u (Search.missing p absent) = absurd (ground (arith, u, absent))
    go es m valid ordered u (Search.found r w l h p e) =
        let same : w ≡ v = ground (arith, e, u) in
        let q = subst (λ (x : Map ℤ). find_index (topics_of x) t ≡ length r) h p in
        let n = subst (λ (x : ℤ). c ≤ℤ x) (sym same) enough in
        let m' = subst IsMap h m in
        let valid' = subst (All IsEntry) h valid in
        let ordered' = subst IsDescending h ordered in
        subst (λ (x : Map ℤ). Ends (of_entries x) t c) (sym h)
          (elim (Bool-cases (eqb_ℤ (w -ℤ c) (pos 0))) [
            | inl z ↦ dec_zero t c ht mt hc mc r l w n q m' valid' ordered' z
            | inr z ↦ dec_positive t c ht mt hc mc r l w n q m' valid' ordered' z
          ])

-- On a histogram whose two arrays have one length, Dec of a positive count of at most MaxInt32 panics
-- at a topic between 0 and MaxInt32 that has no entry.
pub ordered_dec-missing :
    (o : OrderedSparse) (t c : ℤ)
    → length o.topics ≡ length o.counts
    → IsEntry (t, c)
    → lookup t (entries o) ≡ none
    → dec o t c ≡ panic
ordered_dec-missing o t c same (ht, mt, hc, mc) u =
    subst (λ (x : OrderedSparse). dec x t c ≡ panic) (of_entries-entries o same)
      (dec_guards (of_entries (entries o)) t c ht mt hc mc
        ∙ go (entries o) u (find_index-Search t (entries o)))
  where
    go :
        (es : Map ℤ)
        → lookup t es ≡ none
        → Search t es (find_index (topics_of es) t)
        → (lower (of_entries es) (find_index (topics_of es) t) c >>= λ lowered.
            settle_right lowered (find_index (topics_of es) t) t)
          ≡ panic
    go es u (Search.found r w l h p e) = absurd (ground (arith, u, e))
    go es u (Search.missing p absent) = rw (p, lower_missing es c, ◌>>=◌)
