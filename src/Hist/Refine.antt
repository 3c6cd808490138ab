-- ===== src/Hist/Refine.antt =====
-- core/hist/histogram.go: the three implementations against one abstract histogram, a function from
-- topics to counts.
use open_peacock.Prelude.{◌≡◌, subst, arith}
use open_peacock.Prelude.Int.{ℤ, pos, ◌≤ℤ◌}
use open_peacock.Prelude.Word.{int32_id, max_int32, IsInt32}
use open_peacock.Prelude.Run.{ok, returned, ok_injective}
use open_peacock.Hist.Visit.{Adds}
use open_peacock.Hist.Dense
use open_peacock.Hist.Dense.Laws.{dense_inc-Changed}
use open_peacock.Hist.Sparse
use open_peacock.Hist.Sparse.{value}
use open_peacock.Hist.Sparse.Laws.{sparse_inc-Changed}
use open_peacock.Hist.Ordered
use open_peacock.Hist.Ordered.Entries.{entries}
use open_peacock.Hist.Ordered.Order
use open_peacock.Hist.Ordered.Units.{inc_one}
use open_peacock.Hist.Interface
use open_peacock.Hist.Interface.{Hist, dense, sparse, ordered, counts}

-- The invariant of the implementation.
abbrev pub IsValid : Hist → Type 0
IsValid (dense d) = Dense.IsWellFormed d
IsValid (sparse s) = Sparse.IsWellFormed s
IsValid (ordered o) = Order.IsWellFormed o

is_int32 : (t : ℤ) → pos 0 ≤ℤ t → t ≤ℤ max_int32 → IsInt32 t
is_int32 t low high = ground arith

-- Whatever the implementation, an Inc by one at a topic that is an int32 and not negative, when it
-- returns on a histogram that keeps its invariant, keeps the invariant and adds one to the count of
-- that topic and nothing to the others.
pub interface_inc-Adds :
    (h h' : Hist) (t : ℤ)
    → IsValid h
    → pos 0 ≤ℤ t
    → t ≤ℤ max_int32
    → Interface.inc h t (pos 1) ≡ ok h'
    → IsValid h' × Adds (counts h) t (pos 1) (counts h')
unfolding Interface.inc
interface_inc-Adds (dense d) h' t v low high e =
    let (d', p, e₁) = returned (Dense.inc d t (pos 1)) _ e in
    let c = dense_inc-Changed d t (pos 1) v (omega arith) p in
    subst (λ (x : Hist). IsValid x × Adds (Dense.count d) t (pos 1) (counts x)) (ok_injective e₁)
      (c.well_formed, c.adds)
interface_inc-Adds (sparse s) h' t v low high e =
    let (s', p, e₁) = returned (Sparse.inc s t (pos 1)) _ e in
    let c = sparse_inc-Changed s t (pos 1) v p in
    subst (λ (x : Hist). IsValid x × Adds (value s) t (pos 1) (counts x)) (ok_injective e₁)
      (
        c.well_formed,
        subst (λ (x : ℤ). Adds (value s) x (pos 1) (value s')) (int32_id t (is_int32 t low high))
            c.adds,
      )
interface_inc-Adds (ordered o) h' t v low high e =
    let (o', p, e₁) = returned (Ordered.inc o t (pos 1)) _ e in
    let c = inc_one o t v low high p in
    subst (λ (x : Hist). IsValid x × Adds (value (entries o)) t (pos 1) (counts x))
      (ok_injective e₁) (c.well_formed, c.adds)
