-- ===== src/Hist/Dense.antt =====
-- core/hist/dense_histogram.go: a histogram as an array of int64 counts.
pub mod Laws
use open_peacock.Prelude.{
  ℕ, zero, suc, ◌+◌, ◌≤◌, ◌<◌, ◌≡◌, Option, none, some, List, [], ◌∷◌, length, get_elem?, get_or,
  set, replicate,
}
use open_peacock.Prelude.Int.{ℤ, pos, negsuc, ◌+ℤ◌, ◌-ℤ◌, ltb_ℤ, leb_ℤ, to_index}
use open_peacock.Prelude.Word.{int64, add64, sub64, max_int64, IsInt64}
use open_peacock.Prelude.Run.{Run, ok, panic, fatal, ◌>>=◌, ◌>>◌, panic_if, or_panic}
use open_peacock.Hist.Visit.{Visitor, visit}

abbrev pub Dense : Type 0
Dense = List ℤ

-- NewDense: `make` panics at a negative length.
unfoldable pub new_dense : ℤ → Run Dense
new_dense dim = or_panic (to_index dim) >>= λ n. ok (replicate n (pos 0))

-- `d[topic]`
unfoldable pub at : Dense → ℤ → Run ℤ
at d topic = do i ← or_panic (to_index topic); or_panic (get_elem? d i)

-- `d[topic] = v`, after a read at the same index
abbrev pub store : Dense → ℤ → ℤ → Dense
store d (pos i) v = set d i v
store d (negsuc _) v = d

unfoldable pub inc : Dense → ℤ → ℤ → Run Dense
inc d topic count = do
  panic_if (ltb_ℤ count (pos 0))
  v ← at d topic
  panic_if (leb_ℤ (sub64 max_int64 (int64 count)) v)
  ok (store d topic (add64 v (int64 count)))

unfoldable pub dec : Dense → ℤ → ℤ → Run Dense
dec d topic count = do
  panic_if (ltb_ℤ count (pos 0))
  v ← at d topic
  ok (store d topic (sub64 v (int64 count)))

unfoldable pub len : Dense → ℤ
len d = pos (length d)

-- The pairs `i, v` of `range d`, from index `i` on.
unfoldable pub enumerate : ℕ → Dense → List (ℤ × ℤ)
enumerate i [] = []
enumerate i (v ∷ d) = (pos i, v) ∷ enumerate (suc i) d

unfoldable pub for_each : {S E : Type 0} → Visitor S E → Dense → S → Run (S × Option E)
unfolding visit enumerate
for_each p d = visit p (enumerate 0 d)

-- `copy(dst, src)`: the first min(len(dst), len(src)) elements are overwritten.
unfoldable pub copy {ℓ} : {A : Type ℓ} → List A → List A → List A
copy [] src = []
copy (x ∷ dst) [] = x ∷ dst
copy (x ∷ dst) (y ∷ src) = y ∷ copy dst src

unfoldable pub clone : Dense → Run Dense
unfolding new_dense len copy
clone d = do n ← new_dense (len d); ok (copy n d)

-- The abstract reading: zero outside the array.
abbrev pub count : Dense → ℤ → ℤ
count d (pos i) = get_or d i (pos 0)
count d (negsuc _) = pos 0

-- Every count is an int64.
abbrev pub IsWellFormed : Dense → Type 0
IsWellFormed [] = Unit
IsWellFormed (v ∷ d) = IsInt64 v × IsWellFormed d
