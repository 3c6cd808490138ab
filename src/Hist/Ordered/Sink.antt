-- ===== src/Hist/Ordered/Sink.antt =====
-- OrderedSparse.Dec: the loop that moves a lowered entry behind the greater ones, and the cut of a
-- zero count.
use open_peacock.Prelude.{
  suc, ◌-◌, ◌≡◌, refl, ap, true, false, [], ◌∷◌, map, arith, length, length-map, take,
}
use open_peacock.Prelude.Int.{ℤ, pos, ◌≤ℤ◌, ltb_ℤ, eqb_ℤ, eqb→eq}
use open_peacock.Prelude.Run.{ok, ◌>>=◌}
use open_peacock.Map.{Map}
use open_peacock.Hist.Ordered.{settle_right}
use open_peacock.Hist.Ordered.Entries.{
  of_entries, rev_append, length-rev_append, map-rev_append, take-rev_append,
}
use open_peacock.Hist.Ordered.Moves.{load_here, drift, drift_others, shift_right-drift}
use open_peacock.Hist.Ordered.Order.{All, IsEntry}

-- The entries after an entry `x` has been moved down from between `r` and `l`.
abbrev pub sunk : Map ℤ → ℤ × ℤ → Map ℤ → Map ℤ
sunk r x l = rev_append (drift r x l).0 (x ∷ (drift r x l).1)

-- A zero count sinks below all positive ones.
drift_zero : (r l : Map ℤ) (x : ℤ × ℤ) → x.1 ≡ pos 0 → All IsEntry l → (drift r x l).1 ≡ []
unfolding drift
drift_zero r [] x e h = refl
drift_zero r (z ∷ l) x e h = rw (less x.1 z.1 e h.0.2) (drift_zero (z ∷ r) l x e h.1)
  where
    less : (a b : ℤ) → a ≡ pos 0 → pos 1 ≤ℤ b → ltb_ℤ a b ≡ true
    less a b e p = rw e (ground arith)

cut_here :
    (f : ℤ × ℤ → ℤ) (a : Map ℤ) (x : ℤ × ℤ)
    → take (length a) (map f (rev_append a (x ∷ []))) ≡ map f (rev_append a [])
cut_here f a x =
    rw (map-rev_append f a (x ∷ []), map-rev_append f a [], ← length-map a f)
      (take-rev_append (map f a) (f x ∷ []))

rest_length : (r l : Map ℤ) (x : ℤ × ℤ) → length (rev_append r (x ∷ l)) - suc (length r) ≡ length l
rest_length r l x = omega (arith, length-rev_append r (x ∷ l))

pub settle_right-sunk :
    (r l : Map ℤ) (t c : ℤ)
    → eqb_ℤ c (pos 0) ≡ false
    → settle_right (of_entries (rev_append r ((t, c) ∷ l))) (length r) t
      ≡ ok (of_entries (sunk r (t, c) l))
unfolding settle_right
settle_right-sunk r l t c q =
    let (s, run, final) = shift_right-drift r (t, c) (t, c) l in
    rw
      (
        load_here (λ e. e.1) r l (t, c),
        ◌>>=◌,
        length-map (rev_append r ((t, c) ∷ l)) (λ e. e.0),
        rest_length r l (t, c),
        run,
        ◌>>=◌,
        q,
      )
      (ap ok final)

pub settle_right-cut :
    (r l : Map ℤ) (t c : ℤ)
    → eqb_ℤ c (pos 0) ≡ true
    → All IsEntry l
    → settle_right (of_entries (rev_append r ((t, c) ∷ l))) (length r) t
      ≡ ok (of_entries (rev_append r l))
unfolding settle_right
settle_right-cut r l t c q h =
    let (s, run, final) = shift_right-drift r (t, c) (t, c) l in
    let last = drift_zero r l (t, c) (eqb→eq c (pos 0) q) h in
    let a = (drift r (t, c) l).0 in
    let others : rev_append a [] ≡ rev_append r l = rw last at (drift_others r (t, c) l) in
    rw (
      load_here (λ e. e.1) r l (t, c),
      ◌>>=◌,
      length-map (rev_append r ((t, c) ∷ l)) (λ e. e.0),
      rest_length r l (t, c),
      run,
      ◌>>=◌,
      q,
      final,
      last,
      cut_here (λ e. e.0) a (t, c),
      cut_here (λ e. e.1) a (t, c),
      others,
    )
