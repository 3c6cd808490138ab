-- ===== src/Hist/Convert.antt =====
-- The conversions between the histograms: OrderedSparse.Assign and OrderedSparse.AddDiff.
use open_peacock.Prelude.{Bool, true, false, ◌&&◌, ◌||◌, none, List, [], ◌∷◌, ◌++◌}
use open_peacock.Prelude.Int.{ℤ, pos, ltb_ℤ, eqb_ℤ}
use open_peacock.Prelude.Word.{int32, add32, sub32}
use open_peacock.Prelude.Run.{Run, ok, panic, ◌>>=◌}
use open_peacock.Map.{insert, erase}
use open_peacock.Runtime.{Runtime}
use open_peacock.Hist.Visit.{Visitor}
use open_peacock.Hist.Interface
use open_peacock.Hist.Interface.{Hist, sparse}
use open_peacock.Hist.Sparse.{Sparse, value, new_sparse, assign_ordered}
use open_peacock.Hist.Ordered.{OrderedSparse}
use open_peacock.Hist.Ordered.Entries.{entries, of_entries}

-- OrderedSparse.Less on the entries at two indices: descending counts, then ascending topics.
unfoldable pub less_entry : ℤ × ℤ → ℤ × ℤ → Bool
less_entry a b = ltb_ℤ b.1 a.1 || (eqb_ℤ a.1 b.1 && ltb_ℤ a.0 b.0)

-- The closure of Assign: it appends the element to both arrays and returns nil.
unfoldable pub append_entry : {E : Type 0} → Visitor OrderedSparse E
append_entry topic count o =
    ok (
      record { topics = o.topics ++ int32 topic ∷ []; counts = o.counts ++ int32 count ∷ [] },
      none,
    )

-- `tmp[topic] += m.Counts[i]` over `m.Topics`, with the operation of the loop.
unfoldable pub accumulate : (ℤ → ℤ → ℤ) → List ℤ → List ℤ → Sparse → Run Sparse
accumulate op [] counts tmp = ok tmp
accumulate op (t ∷ topics) [] tmp = panic
accumulate op (t ∷ topics) (c ∷ counts) tmp =
    accumulate op topics counts (insert t (op (value tmp t) c) tmp)

-- `for topic, count := range tmp { if count == 0 { delete(tmp, topic) } }`
unfoldable pub delete_zeros : Sparse → Sparse → Sparse
delete_zeros [] tmp = tmp
delete_zeros (e ∷ es) tmp =
    delete_zeros es (elim (eqb_ℤ e.1 (pos 0)) [ true ↦ erase e.0 tmp | false ↦ tmp ])

module _ (go : Runtime) where
  -- `sort.Sort(o)`: the two arrays are swapped together.
  unfoldable pub sort_ordered : OrderedSparse → OrderedSparse
  unfolding entries
  sort_ordered o = of_entries (go.sort (ℤ × ℤ) less_entry (entries o))

  -- Assign: it clears the receiver first, so its old value does not matter.
  unfoldable pub assign : Hist → Run OrderedSparse
  assign h =
      Interface.for_each go {E = Unit {0}} append_entry h (record { topics = []; counts = [] })
      >>= λ (o, _). ok (sort_ordered o)

  -- AddDiff: o += m - s.
  unfoldable pub add_diff : OrderedSparse → OrderedSparse → OrderedSparse → Run OrderedSparse
  add_diff o m s = do
    tmp ← assign_ordered go new_sparse o
    raised ← accumulate add32 m.topics m.counts tmp
    lowered ← accumulate sub32 s.topics s.counts raised
    assign (sparse (delete_zeros (go.range ℤ lowered) lowered))
