-- ===== src/Hist/Sparse/Laws.antt =====
-- Sparse histograms: what Inc and Dec do, when they return, and the invariants that they keep.
use open_peacock.Prelude.{
  ◌≡◌, ◌↔◌, refl, ap, inl, inr, true, false, arith, if◌then◌else◌, Bool-cases,
}
use open_peacock.Prelude.Int.{
  ℤ, pos, ◌+ℤ◌, ◌-ℤ◌, ◌≤ℤ◌, ◌<ℤ◌, int_laws, +ℤ_parts, -ℤ_parts, eqb_ℤ, eqb→eq, eqb_refl, leb_ℤ,
}
use open_peacock.Prelude.Word.{
  int32, max_int32, IsInt32, int32_id, add32_fits, sub32-max, add32, sub32,
}
use open_peacock.Prelude.Run.{ok}
use open_peacock.Map.{insert, erase}
use open_peacock.Map.Laws.{lookup-insert, lookup-erase, insert-IsMap, erase-IsMap}
use open_peacock.Hist.Visit.{Adds}
use open_peacock.Hist.Sparse.{Sparse, value, inc, dec, IsWellFormed, HasNoZero}

pub value-insert :
    (j k v : ℤ) (s : Sparse) → value (insert k v s) j ≡ (if eqb_ℤ j k then v else value s j)
unfolding value
value-insert j k v s = ground (arith, lookup-insert j k v s)

pub value-erase :
    (j k : ℤ) (s : Sparse) → value (erase k s) j ≡ (if eqb_ℤ j k then pos 0 else value s j)
unfolding value
value-erase j k s = ground (arith, lookup-erase j k s)

-- A write, and the removal of a zero, seen through `value`.
write-IsWellFormed :
    (s : Sparse) (t v : ℤ) → IsWellFormed s → IsInt32 v → IsWellFormed (insert t v s)
write-IsWellFormed s t v wf iv = record {
  is_map = insert-IsMap t v s wf.is_map;
  int32_counts = λ k. ground (arith, value-insert k t v s, wf.int32_counts k);
}

drop-IsWellFormed : (s : Sparse) (t : ℤ) → IsWellFormed s → IsWellFormed (erase t s)
drop-IsWellFormed s t wf = record {
  is_map = erase-IsMap t s wf.is_map;
  int32_counts = λ k. ground (arith, value-erase k t s, wf.int32_counts k);
}

-- What a successful Inc or Dec has done: `c` is added at `t`.
pub record Changed (s : Sparse) (t c : ℤ) (s' : Sparse) : Type 0 where
  pub well_formed : IsWellFormed s'
  pub adds : Adds (value s) t c (value s')

value_congr : (s : Sparse) (j t : ℤ) → eqb_ℤ j t ≡ true → value s j ≡ value s t
value_congr s j t e = ap (λ (k : ℤ). value s k) (eqb→eq j t e)

write-Changed :
    (s : Sparse) (t c v : ℤ)
    → IsWellFormed s
    → IsInt32 v
    → v ≡ value s t +ℤ c
    → Changed s t c (insert t v s)
write-Changed s t c v wf iv e = record {
  well_formed = write-IsWellFormed s t v wf iv;
  adds = λ j. ground (arith, value-insert j t v s, ap (λ (x : ℤ). x +ℤ c) (value_at j), e);
}
  where
    value_at :
        (j : ℤ)
        → (if eqb_ℤ j t then value s j else pos 0) ≡ (if eqb_ℤ j t then value s t else pos 0)
    value_at j = ground (arith, value_congr s j t)

inc_inv :
    (s : Sparse) (t c : ℤ) {s' : Sparse}
    → inc s t c ≡ ok s'
    → (pos 1 ≤ℤ c)
      × (c ≤ℤ max_int32)
      × (value s (int32 t) <ℤ sub32 max_int32 (int32 c))
      × (insert (int32 t) (add32 (value s (int32 t)) (int32 c)) s ≡ s')
unfolding inc
inc_inv s t c e = (ground (arith, e), ground (arith, e), ground (arith, e), ground (arith, e))

inc_ok :
    (s : Sparse) (t c : ℤ)
    → pos 1 ≤ℤ c
    → c ≤ℤ max_int32
    → value s (int32 t) <ℤ sub32 max_int32 (int32 c)
    → inc s t c ≡ ok (insert (int32 t) (add32 (value s (int32 t)) (int32 c)) s)
unfolding inc
inc_ok s t c p q h = ground arith

leb_pos : (c : ℤ) → pos 1 ≤ℤ c → leb_ℤ c (pos 0) ≡ false
leb_pos c p = ground arith

dropped-Adds :
    (s : Sparse) (k c v : ℤ)
    → eqb_ℤ v (pos 0) ≡ true
    → Adds (value s) k c (value (insert k v s))
    → Adds (value s) k c (value (erase k (insert k v s)))
dropped-Adds s k c v q h j =
    ground (arith, h j, value-insert j k v s, value-erase j k (insert k v s), q)

dropped_no_zero : (s : Sparse) (k v : ℤ) → HasNoZero s → HasNoZero (erase k (insert k v s))
dropped_no_zero s k v h j z =
    ground (arith, lookup-erase j k (insert k v s), lookup-insert j k v s, h j, z)

below_max :
    (v c : ℤ) → IsInt32 c → pos 1 ≤ℤ c → v <ℤ sub32 max_int32 (int32 c) → v +ℤ c <ℤ max_int32
below_max v c ic p h =
    let g = rw (int32_id c ic, sub32-max c ic (omega arith)) at h in
    omega (arith, g, +ℤ_parts v c, -ℤ_parts max_int32 c)

above_max :
    (v c : ℤ) → IsInt32 c → pos 1 ≤ℤ c → v +ℤ c <ℤ max_int32 → v <ℤ sub32 max_int32 (int32 c)
above_max v c ic p h =
    rw (int32_id c ic, sub32-max c ic (omega arith))
      (omega (arith, +ℤ_parts v c, -ℤ_parts max_int32 c))

-- When Sparse.Inc of a well-formed histogram returns, the result is well formed and has the count
-- added at the topic and nothing else: no count wraps.
pub sparse_inc-Changed :
    (s : Sparse) (t c : ℤ) {s' : Sparse}
    → IsWellFormed s
    → inc s t c ≡ ok s'
    → Changed s (int32 t) c s'
sparse_inc-Changed s t c wf e =
    let (p, m, h, r) = inc_inv s t c e in
    let ic : IsInt32 c = ground arith in
    let fits = add32_fits _ c (wf.int32_counts (int32 t)) ic (omega arith) (below_max _ c ic p h) in
    rw (← r, int32_id c ic, int32_id _ fits) (write-Changed s (int32 t) c _ wf fits refl)

-- Sparse.Inc returns exactly when the count lies between 1 and the largest int32 and the sum stays
-- below the largest int32.
pub sparse_inc_returns :
    (s : Sparse) (t c : ℤ)
    → ((s' : Sparse) × (inc s t c ≡ ok s'))
      ↔ ((pos 1 ≤ℤ c) × (c ≤ℤ max_int32) × (value s (int32 t) +ℤ c <ℤ max_int32))
sparse_inc_returns s t c = (sound, complete)
  where
    sound :
        ((s' : Sparse) × (inc s t c ≡ ok s'))
        → (pos 1 ≤ℤ c) × (c ≤ℤ max_int32) × (value s (int32 t) +ℤ c <ℤ max_int32)
    sound (s', e) = let (p, m, h, _) = inc_inv s t c e in (p, m, below_max _ c (ground arith) p h)

    complete :
        (pos 1 ≤ℤ c) × (c ≤ℤ max_int32) × (value s (int32 t) +ℤ c <ℤ max_int32)
        → (s' : Sparse) × (inc s t c ≡ ok s')
    complete (p, m, h) = (
      insert (int32 t) (add32 (value s (int32 t)) (int32 c)) s,
      inc_ok s t c p m (above_max _ c (ground arith) p h),
    )

-- On a well-formed histogram without a zero entry, Sparse.Dec of a count between 1 and the largest
-- int32, whose difference at the topic is an int32, returns a well-formed histogram with the count
-- taken off the topic and again without a zero entry: a topic that reaches zero is deleted.
pub sparse_dec-Changed :
    (s : Sparse) (t c : ℤ)
    → IsWellFormed s
    → pos 1 ≤ℤ c
    → c ≤ℤ max_int32
    → IsInt32 (value s (int32 t) -ℤ c)
    → HasNoZero s
    → (s' : Sparse) × (dec s t c ≡ ok s')
      × IsWellFormed s'
      × Adds (value s) (int32 t) (pos 0 -ℤ c) (value s')
      × HasNoZero s'
unfolding dec
sparse_dec-Changed s t c wf p m fits h =
    let ic : IsInt32 c = ground arith in
    let k = int32 t in
    let v = value s k -ℤ c in
    let w = write-Changed s k (pos 0 -ℤ c) v wf fits (omega int_laws) in
    rw
      (
        int32_id c ic,
        int32_id (value s (int32 t) -ℤ c) fits,
        value-insert k k v s,
        eqb_refl k,
        leb_pos c p,
      )
      (elim (Bool-cases (eqb_ℤ v (pos 0))) [
        | inl q ↦ (
          erase k (insert k v s),
          rw q,
          drop-IsWellFormed _ k w.well_formed,
          λ j. dropped-Adds s k (pos 0 -ℤ c) v q w.adds j,
          dropped_no_zero s k v h,
        )
        | inr q ↦ (
          insert k v s,
          rw q,
          w.well_formed,
          w.adds,
          λ j z. ground (arith, lookup-insert j k v s, h j, z, q),
        )
      ])
