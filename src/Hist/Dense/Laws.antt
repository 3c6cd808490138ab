-- ===== src/Hist/Dense/Laws.antt =====
-- Dense histograms: what Inc, Dec and Clone do, and when Inc and Dec return.
use open_peacock.Prelude.{
  ℕ, inl, inr, true, zero, suc, ◌<◌, ◌≡◌, ◌↔◌, refl, ap, [], ◌∷◌, arith, length, get_or, set,
  if◌then◌else◌, length-set, length-replicate, ◌==◌,
}
use open_peacock.Prelude.Int.{
  ℤ, pos, negsuc, ◌+ℤ◌, ◌-ℤ◌, ◌≤ℤ◌, ◌<ℤ◌, int_laws, +ℤ_parts, -ℤ_parts, eqb_ℤ, eqb→eq,
}
use open_peacock.Prelude.Word.{
  int64, max_int64, IsInt64, int64_id, add64_fits, sub64-max, add64, sub64,
}
use open_peacock.Prelude.Run.{ok, panic, Run-cases}
use open_peacock.Hist.Visit.{Adds}
use open_peacock.Hist.Dense.{
  Dense, new_dense, at, store, inc, dec, len, copy, clone, count, IsWellFormed,
}

get_or-set :
    (d : Dense) (i j : ℕ) (v : ℤ)
    → i < length d
    → get_or (set d i v) j (pos 0) ≡ (if j == i then v else get_or d j (pos 0))
get_or-set [] i j v h = elim h [ ]
get_or-set (x ∷ d) zero zero v h = refl
get_or-set (x ∷ d) zero (suc j) v h = ground arith
get_or-set (x ∷ d) (suc i) zero v h = ground arith
get_or-set (x ∷ d) (suc i) (suc j) v h = ground (arith, get_or-set d i j v)

count-store :
    (d : Dense) (i : ℕ) (j v : ℤ)
    → i < length d
    → count (store d (pos i) v) j ≡ (if eqb_ℤ j (pos i) then v else count d j)
count-store d i (pos j) v h = ground (arith, get_or-set d i j v)
count-store d i (negsuc j) v h = ground arith

set-IsWellFormed :
    (d : Dense) (i : ℕ) (v : ℤ) → IsInt64 v → IsWellFormed d → IsWellFormed (set d i v)
set-IsWellFormed [] i v h w = tt
set-IsWellFormed (x ∷ d) zero v h w = (h, w.1)
set-IsWellFormed (x ∷ d) (suc i) v h w = (w.0, set-IsWellFormed d i v h w.1)

pub get_or-IsInt64 : (d : Dense) (i : ℕ) → IsWellFormed d → IsInt64 (get_or d i (pos 0))
get_or-IsInt64 [] i w = omega arith
get_or-IsInt64 (x ∷ d) zero w = w.0
get_or-IsInt64 (x ∷ d) (suc i) w = get_or-IsInt64 d i w.1

-- A read that returns was in range, and gives the count.
pub at-eq-ok :
    (d : Dense) (t : ℤ) {v : ℤ}
    → at d t ≡ ok v
    → (i : ℕ) × (t ≡ pos i) × (i < length d) × (count d t ≡ v)
unfolding at
at-eq-ok [] (pos zero) e = cc
at-eq-ok [] (pos (suc i)) e = cc
at-eq-ok (x ∷ d) (pos zero) e = (zero, refl, omega arith, cc)
at-eq-ok (x ∷ d) (pos (suc i)) e =
    let (j, p, q, r) = at-eq-ok d (pos i) e in (suc i, refl, ground arith, r)
at-eq-ok [] (negsuc i) e = cc
at-eq-ok (x ∷ d) (negsuc i) e = cc

pub at-ok : (d : Dense) (i : ℕ) → i < length d → at d (pos i) ≡ ok (count d (pos i))
unfolding at
at-ok [] i h = elim h [ ]
at-ok (x ∷ d) zero h = refl
at-ok (x ∷ d) (suc i) h = at-ok d i (omega arith)

store-IsWellFormed : (d : Dense) (t v : ℤ) → IsInt64 v → IsWellFormed d → IsWellFormed (store d t v)
store-IsWellFormed d (pos i) v h w = set-IsWellFormed d i v h w
store-IsWellFormed d (negsuc i) v h w = w

length-store : (d : Dense) (t v : ℤ) → length (store d t v) ≡ length d
length-store d (pos i) v = length-set d i v
length-store d (negsuc i) v = refl

count-IsInt64 : (d : Dense) (t : ℤ) → IsWellFormed d → IsInt64 (count d t)
count-IsInt64 d (pos i) w = get_or-IsInt64 d i w
count-IsInt64 d (negsuc i) w = omega arith

-- A write of the old count plus `c` at a topic in range.
store-Adds :
    (d : Dense) (i : ℕ) (t c v : ℤ)
    → t ≡ pos i
    → i < length d
    → v ≡ count d t +ℤ c
    → Adds (count d) t c (count (store d t v))
store-Adds d i t c v e h p j =
    rw (e, p, e, count-store d i j (count d (pos i) +ℤ c) h) (ground (arith, +ℤ_congr j (pos i) c))
  where
    +ℤ_congr : (j k c : ℤ) → eqb_ℤ j k ≡ true → count d k +ℤ c ≡ count d j +ℤ c
    +ℤ_congr j k c q = rw (eqb→eq j k q)

-- What a successful Inc or Dec has done: `c` is added at `t`, in an array of the same length.
pub record Changed (d : Dense) (t c : ℤ) (d' : Dense) : Type 0 where
  pub well_formed : IsWellFormed d'
  pub same_length : length d' ≡ length d
  pub adds : Adds (count d) t c (count d')

store-Changed :
    (d : Dense) (t c v w : ℤ)
    → IsWellFormed d
    → at d t ≡ ok v
    → IsInt64 w
    → w ≡ v +ℤ c
    → Changed d t c (store d t w)
store-Changed d t c v w wf e iw p =
    let (i, q, h, r) = at-eq-ok d t e in
    record {
      well_formed = store-IsWellFormed d t w iw wf;
      same_length = length-store d t w;
      adds = store-Adds d i t c w q h (rw r p);
    }

-- The guards of Inc, read off a call that returned.
inc_inv :
    (d : Dense) (t c : ℤ) {d' : Dense}
    → inc d t c ≡ ok d'
    → (v : ℤ) × (at d t ≡ ok v)
      × (pos 0 ≤ℤ c)
      × (v <ℤ sub64 max_int64 (int64 c))
      × (store d t (add64 v (int64 c)) ≡ d')
unfolding inc
inc_inv d t c e = elim (Run-cases (at d t)) [
  | inl (v, q) ↦ (v, q, ground (arith, q, e), ground (arith, q, e), ground (arith, q, e))
  | inr (inl q) ↦ absurd (ground (arith, q, e))
  | inr (inr q) ↦ absurd (ground (arith, q, e))
]

dec_inv :
    (d : Dense) (t c : ℤ) {d' : Dense}
    → dec d t c ≡ ok d'
    → (v : ℤ) × (at d t ≡ ok v) × (pos 0 ≤ℤ c) × (store d t (sub64 v (int64 c)) ≡ d')
unfolding dec
dec_inv d t c e = elim (Run-cases (at d t)) [
  | inl (v, q) ↦ (v, q, ground (arith, q, e), ground (arith, q, e))
  | inr (inl q) ↦ absurd (ground (arith, q, e))
  | inr (inr q) ↦ absurd (ground (arith, q, e))
]

inc_ok :
    (d : Dense) (i : ℕ) (c : ℤ)
    → i < length d
    → pos 0 ≤ℤ c
    → count d (pos i) <ℤ sub64 max_int64 (int64 c)
    → inc d (pos i) c ≡ ok (store d (pos i) (add64 (count d (pos i)) (int64 c)))
unfolding inc
inc_ok d i c h p b = rw (at-ok d i h, inc) (ground arith)

below_max :
    (v c : ℤ) → IsInt64 c → pos 0 ≤ℤ c → v <ℤ sub64 max_int64 (int64 c) → v +ℤ c <ℤ max_int64
below_max v c ic p h =
    let g = rw (int64_id c ic, sub64-max c ic p) at h in
    omega (arith, g, +ℤ_parts v c, -ℤ_parts max_int64 c)

above_max :
    (v c : ℤ) → IsInt64 c → pos 0 ≤ℤ c → v +ℤ c <ℤ max_int64 → v <ℤ sub64 max_int64 (int64 c)
above_max v c ic p h =
    rw (int64_id c ic, sub64-max c ic p) (omega (arith, +ℤ_parts v c, -ℤ_parts max_int64 c))

-- When Dense.Inc of an int64 count returns on an array of int64 counts, the result is such an
-- array of the same length, with the count added at the topic and nothing else: no count wraps.
pub dense_inc-Changed :
    (d : Dense) (t c : ℤ) {d' : Dense}
    → IsWellFormed d
    → IsInt64 c
    → inc d t c ≡ ok d'
    → Changed d t c d'
dense_inc-Changed d t c wf ic e =
    let (v, q, p, h, r) = inc_inv d t c e in
    let (i, _, _, u) = at-eq-ok d t q in
    let iv : IsInt64 v = rw (← u) (count-IsInt64 d t wf) in
    let fits = add64_fits v c iv ic p (below_max v c ic p h) in
    rw (← r, int64_id c ic, int64_id _ fits) (store-Changed d t c v _ wf q fits refl)

-- At a topic in range, Dense.Inc of an int64 count returns exactly when the count is not negative
-- and the sum stays below the largest int64.
pub dense_inc_returns :
    (d : Dense) (i : ℕ) (c : ℤ)
    → IsInt64 c
    → i < length d
    → ((d' : Dense) × (inc d (pos i) c ≡ ok d'))
      ↔ ((pos 0 ≤ℤ c) × (count d (pos i) +ℤ c <ℤ max_int64))
dense_inc_returns d i c ic h = (sound, complete)
  where
    sound :
        ((d' : Dense) × (inc d (pos i) c ≡ ok d'))
        → (pos 0 ≤ℤ c) × (count d (pos i) +ℤ c <ℤ max_int64)
    sound (d', e) =
        let (v, q, p, b, _) = inc_inv d (pos i) c e in
        let (_, _, _, u) = at-eq-ok d (pos i) q in (p, rw u (below_max v c ic p b))

    complete :
        (pos 0 ≤ℤ c) × (count d (pos i) +ℤ c <ℤ max_int64)
        → (d' : Dense) × (inc d (pos i) c ≡ ok d')
    complete (p, b) = (
      store d (pos i) (add64 (count d (pos i)) (int64 c)),
      inc_ok d i c h p (above_max _ c ic p b),
    )

-- Dense.Inc panics at a topic outside the array.
pub dense_inc-out_of_range : (d : Dense) (t c : ℤ) → at d t ≡ panic → inc d t c ≡ panic
unfolding inc
dense_inc-out_of_range d t c e = ground arith

-- When Dense.Dec of an int64 count returns on an array of int64 counts and the difference at the
-- topic is an int64, the result is such an array of the same length, with the count taken off the
-- topic.
pub dense_dec-Changed :
    (d : Dense) (t c : ℤ) {d' : Dense}
    → IsWellFormed d
    → IsInt64 c
    → IsInt64 (count d t -ℤ c)
    → dec d t c ≡ ok d'
    → Changed d t (pos 0 -ℤ c) d'
dense_dec-Changed d t c wf ic fits e =
    let (v, q, p, r) = dec_inv d t c e in
    let (i, _, _, u) = at-eq-ok d t q in
    let fits' : IsInt64 (v -ℤ c) = rw (← u) fits in
    rw (← r, int64_id c ic, int64_id _ fits')
      (store-Changed d t (pos 0 -ℤ c) v _ wf q fits' (omega int_laws))

copy_all : (xs ys : Dense) → length xs ≡ length ys → copy xs ys ≡ ys
unfolding copy
copy_all [] [] h = refl
copy_all [] (y ∷ ys) h = absurd (omega arith)
copy_all (x ∷ xs) [] h = absurd (omega arith)
copy_all (x ∷ xs) (y ∷ ys) h = ap (◌∷◌ y) (copy_all xs ys (omega arith))

-- Dense.Clone is an equal array.
pub dense_clone_lem : (d : Dense) → clone d ≡ ok d
unfolding clone new_dense len
dense_clone_lem d = ap ok (copy_all _ d (length-replicate (length d) (pos 0)))
