-- ===== src/Hist/Sparse.antt =====
-- core/hist/sparse_histogram.go: a histogram as a Go map from int32 topics to int32 counts.
pub mod Laws
pub mod Whole
use open_peacock.Prelude.{
  ℕ, ◌+◌, ◌≡◌, ◌≢◌, Bool, true, false, ◌&&◌, Option, none, some, List, [], ◌∷◌, length, get_elem?,
  ◌==◌, if◌then◌else◌,
}
use open_peacock.Prelude.Int.{ℤ, pos, negsuc, ◌+ℤ◌, ◌-ℤ◌, ltb_ℤ, leb_ℤ, eqb_ℤ}
use open_peacock.Prelude.Word.{int32, add32, sub32, max_int32, IsInt32}
use open_peacock.Prelude.Run.{Run, ok, panic, fatal, ◌>>=◌, ◌>>◌, panic_if}
use open_peacock.Map.{Map, lookup, insert, erase, IsMap}
use open_peacock.Runtime.{Runtime}
use open_peacock.Hist.Visit.{Visitor, visit}
use open_peacock.Hist.Ordered.{OrderedSparse, load}

abbrev pub Sparse : Type 0
Sparse = Map ℤ

unfoldable pub new_sparse : Sparse
new_sparse = []

-- `s[k]`: the zero value if the key is missing.
unfoldable pub value : Sparse → ℤ → ℤ
value s k = elim (lookup k s) [ none ↦ pos 0 | some v ↦ v ]

unfoldable pub len : Sparse → ℤ
len s = pos (length s)

unfoldable pub at : Sparse → ℤ → ℤ
at s topic = value s (int32 topic)

unfoldable pub inc : Sparse → ℤ → ℤ → Run Sparse
inc s topic count = do
  panic_if (leb_ℤ count (pos 0))
  panic_if (ltb_ℤ max_int32 count)
  let t = int32 topic
  panic_if (leb_ℤ (sub32 max_int32 (int32 count)) (value s t))
  ok (insert t (add32 (value s t) (int32 count)) s)

unfoldable pub dec : Sparse → ℤ → ℤ → Run Sparse
dec s topic count = do
  panic_if (leb_ℤ count (pos 0))
  let t = int32 topic
  let s' = insert t (sub32 (value s t) (int32 count)) s
  ok (if eqb_ℤ (value s' t) (pos 0) then erase t s' else s')

-- `for k := range … { delete(s, k) }`
unfoldable pub delete_keys : Sparse → Sparse → Sparse
delete_keys [] s = s
delete_keys (e ∷ es) s = delete_keys es (erase e.0 s)

-- `for k, v := range o { s[k] += v }`
unfoldable pub add_entries : Sparse → Sparse → Sparse
add_entries [] s = s
add_entries (e ∷ es) s = add_entries es (insert e.0 (add32 (value s e.0) e.1) s)

-- The loop of Equal: `v2, ok := o[k]; !ok || v2 != v`.
unfoldable pub all_equal : Sparse → Sparse → Bool
all_equal [] o = true
all_equal (e ∷ es) o =
    (elim (lookup e.0 o) [ none ↦ false | some v ↦ eqb_ℤ v e.1 ]) && all_equal es o

-- The loop of AssignOrdered: `s[o.Topics[i]] = o.Counts[i]`.
unfoldable pub assign_entries : List ℤ → List ℤ → Sparse → Run Sparse
assign_entries [] counts s = ok s
assign_entries (t ∷ topics) [] s = panic
assign_entries (t ∷ topics) (c ∷ counts) s = assign_entries topics counts (insert t c s)

-- `for k, v := range s { n[k] = v }`
unfoldable pub copy_entries : Sparse → Sparse → Sparse
copy_entries [] n = n
copy_entries (e ∷ es) n = copy_entries es (insert e.0 e.1 n)

module _ (go : Runtime) where
  unfoldable pub clear : Sparse → Sparse
  unfolding delete_keys
  clear s = delete_keys (go.range ℤ s) s

  unfoldable pub assign_ordered : Sparse → OrderedSparse → Run Sparse
  unfolding assign_entries
  assign_ordered s o = assign_entries o.topics o.counts (clear s)

  unfoldable pub add : Sparse → Sparse → Sparse
  unfolding add_entries
  add s o = add_entries (go.range ℤ o) s

  unfoldable pub equal : Sparse → Sparse → Bool
  unfolding all_equal
  equal s o = if length s == length o then all_equal (go.range ℤ s) o else false

  unfoldable pub for_each : {S E : Type 0} → Visitor S E → Sparse → S → Run (S × Option E)
  unfolding visit
  for_each p s = visit p (go.range ℤ s)

  unfoldable pub clone : Sparse → Sparse
  unfolding copy_entries
  clone s = copy_entries (go.range ℤ s) new_sparse

-- The keys are distinct, and every count is an int32.
pub record IsWellFormed (s : Sparse) : Type 0 where
  pub is_map : IsMap s
  pub int32_counts : (k : ℤ) → IsInt32 (value s k)

-- No topic is kept with a zero count.
abbrev pub HasNoZero : Sparse → Type 0
HasNoZero s = (k : ℤ) → lookup k s ≢ some (pos 0)
