-- ===== src/Hist/Ordered/Moves.antt =====
-- The two loops that move one entry, and the descending order.
use open_peacock.Prelude.{
  ℕ, suc, ◌≡◌, refl, sym, ap, ◌∙◌, inl, inr, true, false, [], ◌∷◌, map, length, length-map, set,
  if◌then◌else◌, Bool-cases,
}
use open_peacock.Prelude.Int.{ℤ, ltb_ℤ}
use open_peacock.Prelude.Run.{Run, ok, ◌>>=◌, or_panic}
use open_peacock.Map.{Map}
use open_peacock.Hist.Ordered.{OrderedSparse, load, shift_left, shift_right, put}
use open_peacock.Hist.Ordered.Entries.{
  of_entries, topics_of, counts_of, rev_append, map-rev_append, get_here, set_here, get_next,
  set_next,
}

-- Arrays that are images of one entry list.
module _ (f : ℤ × ℤ → ℤ) (r l : Map ℤ) where
  pub load_here : (x : ℤ × ℤ) → load (map f (rev_append r (x ∷ l))) (length r) ≡ ok (f x)
  load_here x =
      rw (map-rev_append f r (x ∷ l), ← length-map r f)
        (ap or_panic (get_here (map f r) (map f l) (f x)))

  pub load_next :
      (x y : ℤ × ℤ) → load (map f (rev_append r (x ∷ y ∷ l))) (suc (length r)) ≡ ok (f y)
  load_next x y =
      rw (map-rev_append f r (x ∷ y ∷ l), ← length-map r f)
        (ap or_panic (get_next (map f r) (map f l) (f x) (f y)))

  pub write_here :
      (x v : ℤ × ℤ)
      → set (map f (rev_append r (x ∷ l))) (length r) (f v) ≡ map f (rev_append r (v ∷ l))
  write_here x v =
      rw (map-rev_append f r (x ∷ l), map-rev_append f r (v ∷ l), ← length-map r f)
        (set_here (map f r) (map f l) (f x) (f v))

  pub write_next :
      (x y v : ℤ × ℤ)
      → set (map f (rev_append r (x ∷ y ∷ l))) (suc (length r)) (f v)
        ≡ map f (rev_append r (x ∷ v ∷ l))
  write_next x y v =
      rw (map-rev_append f r (x ∷ y ∷ l), map-rev_append f r (x ∷ v ∷ l), ← length-map r f)
        (set_next (map f r) (map f l) (f x) (f y) (f v))

-- The topics do not depend on a count.
pub topics_keep :
    (r l : Map ℤ) (t v w : ℤ)
    → topics_of (rev_append r ((t, v) ∷ l)) ≡ topics_of (rev_append r ((t, w) ∷ l))
topics_keep r l t v w =
    map-rev_append (λ e. e.0) r ((t, v) ∷ l) ∙ sym (map-rev_append (λ e. e.0) r ((t, w) ∷ l))

-- A write of the count alone.
pub write_count :
    (r l : Map ℤ) (t v w : ℤ)
    → ◌≡◌ {A = OrderedSparse}
        (record {
          topics = topics_of (rev_append r ((t, v) ∷ l));
          counts = set (counts_of (rev_append r ((t, v) ∷ l))) (length r) w;
        })
        (of_entries (rev_append r ((t, w) ∷ l)))
write_count r l t v w = λ i. record {
  topics = topics_keep r l t v w i;
  counts = write_here (λ e. e.1) r l (t, v) (t, w) i;
}

-- Where an entry `x` between the reversed prefix `r` and the rest `l` ends up, to the left.
unfoldable pub rise : Map ℤ → ℤ × ℤ → Map ℤ → Map ℤ × Map ℤ
rise [] x l = ([], l)
rise (z ∷ r) x l = if ltb_ℤ z.1 x.1 then rise r x (z ∷ l) else (z ∷ r, l)

-- And to the right.
unfoldable pub drift : Map ℤ → ℤ × ℤ → Map ℤ → Map ℤ × Map ℤ
drift r x [] = (r, [])
drift r x (z ∷ l) = if ltb_ℤ x.1 z.1 then drift (z ∷ r) x l else (r, z ∷ l)

put_here :
    (r l : Map ℤ) (x v : ℤ × ℤ)
    → put (of_entries (rev_append r (x ∷ l))) (length r) v.0 v.1 ≡ of_entries (rev_append r (v ∷ l))
unfolding put
put_here r l x v = λ i. record {
  topics = write_here (λ e. e.0) r l x v i;
  counts = write_here (λ e. e.1) r l x v i;
}

-- The state after the loop: it stopped at index `length q.0`, and the write of `x` there gives the
-- entries `q` around `x`.
abbrev pub Stopped : Run (ℕ × OrderedSparse) → ℤ × ℤ → Map ℤ × Map ℤ → Type 0
Stopped run x q =
    (s : OrderedSparse) × (run ≡ ok (length q.0, s))
    × (put s (length q.0) x.0 x.1 ≡ of_entries (rev_append q.0 (x ∷ q.1)))

-- One round of each loop.
module _ (o : OrderedSparse) (i : ℕ) (c t v : ℤ) where
  shift_left_round :
      load o.counts i ≡ ok v
      → ltb_ℤ v c ≡ true
      → load o.topics i ≡ ok t
      → shift_left (suc i) o c
        ≡ shift_left i
            (record { topics = set o.topics (suc i) t; counts = set o.counts (suc i) v })
            c
  unfolding shift_left
  shift_left_round e q f = rw (e, ◌>>=◌, q, f)

  shift_left_stop :
      load o.counts i ≡ ok v → ltb_ℤ v c ≡ false → shift_left (suc i) o c ≡ ok (suc i, o)
  unfolding shift_left
  shift_left_stop e q = rw (e, ◌>>=◌, q)

  shift_right_round :
      (n : ℕ)
      → load o.counts (suc i) ≡ ok v
      → ltb_ℤ c v ≡ true
      → load o.topics (suc i) ≡ ok t
      → shift_right (suc n) i o c
        ≡ shift_right n (suc i) (record { topics = set o.topics i t; counts = set o.counts i v }) c
  unfolding shift_right
  shift_right_round n e q f = rw (e, ◌>>=◌, q, f)

  shift_right_stop :
      (n : ℕ)
      → load o.counts (suc i) ≡ ok v
      → ltb_ℤ c v ≡ false
      → shift_right (suc n) i o c ≡ ok (i, o)
  unfolding shift_right
  shift_right_stop n e q = rw (e, ◌>>=◌, q)

pub shift_left-rise :
    (r : Map ℤ) (x y : ℤ × ℤ) (l : Map ℤ)
    → Stopped (shift_left (length r) (of_entries (rev_append r (y ∷ l))) x.1) x (rise r x l)
unfolding rise
shift_left-rise [] x y l = unfold shift_left in (of_entries (y ∷ l), refl, put_here [] l y x)
shift_left-rise (z ∷ r) x y l = elim (Bool-cases (ltb_ℤ z.1 x.1)) [
  | inl q ↦
      rw
        (
          shift_left_round (of_entries (rev_append (z ∷ r) (y ∷ l))) (length r) x.1 z.0 z.1
              (load_here (λ e. e.1) r (y ∷ l) z) q (load_here (λ e. e.0) r (y ∷ l) z),
          write_next (λ e. e.0) r l z y z,
          write_next (λ e. e.1) r l z y z,
          q,
        )
        (shift_left-rise r x z (z ∷ l))
  | inr q ↦
      rw
        (
          shift_left_stop (of_entries (rev_append (z ∷ r) (y ∷ l))) (length r) x.1 z.0 z.1
              (load_here (λ e. e.1) r (y ∷ l) z) q,
          q,
        )
        (of_entries (rev_append (z ∷ r) (y ∷ l)), refl, put_here (z ∷ r) l y x)
]

pub shift_right-drift :
    (r : Map ℤ) (x y : ℤ × ℤ) (l : Map ℤ)
    → Stopped
        (shift_right (length l) (length r) (of_entries (rev_append r (y ∷ l))) x.1)
        x
        (drift r x l)
unfolding drift
shift_right-drift r x y [] =
    unfold shift_right in (of_entries (rev_append r (y ∷ [])), refl, put_here r [] y x)
shift_right-drift r x y (z ∷ l) = elim (Bool-cases (ltb_ℤ x.1 z.1)) [
  | inl q ↦
      rw
        (
          shift_right_round (of_entries (rev_append r (y ∷ z ∷ l))) (length r) x.1 z.0 z.1
              (length l) (load_next (λ e. e.1) r l y z) q (load_next (λ e. e.0) r l y z),
          write_here (λ e. e.0) r (z ∷ l) y z,
          write_here (λ e. e.1) r (z ∷ l) y z,
          q,
        )
        (shift_right-drift (z ∷ r) x z l)
  | inr q ↦
      rw
        (
          shift_right_stop (of_entries (rev_append r (y ∷ z ∷ l))) (length r) x.1 z.0 z.1 (length l)
              (load_next (λ e. e.1) r l y z) q,
          q,
        )
        (of_entries (rev_append r (y ∷ z ∷ l)), refl, put_here r (z ∷ l) y x)
]

-- Neither loop touches the other entries.
pub rise_others :
    (r : Map ℤ) (x : ℤ × ℤ) (l : Map ℤ) → rev_append (rise r x l).0 (rise r x l).1 ≡ rev_append r l
unfolding rise
rise_others [] x l = refl
rise_others (z ∷ r) x l = elim (Bool-cases (ltb_ℤ z.1 x.1)) [
  | inl q ↦ rw q (rise_others r x (z ∷ l))
  | inr q ↦ rw q
]

pub drift_others :
    (r : Map ℤ) (x : ℤ × ℤ) (l : Map ℤ)
    → rev_append (drift r x l).0 (drift r x l).1 ≡ rev_append r l
unfolding drift
drift_others r x [] = refl
drift_others r x (z ∷ l) = elim (Bool-cases (ltb_ℤ x.1 z.1)) [
  | inl q ↦ rw q (drift_others (z ∷ r) x l)
  | inr q ↦ rw q
]
