-- ===== src/Hist/Ordered.antt =====
-- core/hist/ordered_sparse_histogram.go: a histogram as two parallel arrays, topics and counts, with
-- the counts in descending order. Inc and Dec keep the order by moving one entry.
pub mod Entries
pub mod Order
pub mod Moves
pub mod Inc
pub mod Sink
pub mod Dec
pub mod Units
use open_peacock.Prelude.{
  ℕ, zero, suc, ◌+◌, ◌-◌, ◌<◌, ◌≡◌, Bool, true, false, Option, none, some, List, [], ◌∷◌, ◌++◌,
  ◌&&◌, ◌||◌, length, get_elem?, set, take, ltb, leb, if◌then◌else◌, not,
}
use open_peacock.Prelude.Int.{ℤ, pos, negsuc, ◌+ℤ◌, ◌-ℤ◌, ltb_ℤ, leb_ℤ, eqb_ℤ}
use open_peacock.Prelude.Word.{int32, int64, add32, sub32, max_int32}
use open_peacock.Prelude.Run.{Run, ok, panic, fatal, ◌>>=◌, ◌>>◌, panic_if, or_panic}
use open_peacock.Hist.Visit.{Visitor}

pub record OrderedSparse : Type 0 where
  pub topics : List ℤ
  pub counts : List ℤ

unfoldable pub new_ordered_sparse : OrderedSparse
new_ordered_sparse = record { topics = []; counts = [] }

-- NewOrderedSparseAndReserve: only the capacity differs; `make` panics at a negative one.
unfoldable pub new_ordered_sparse_and_reserve : ℤ → Run OrderedSparse
unfolding new_ordered_sparse
new_ordered_sparse_and_reserve cap = do panic_if (ltb_ℤ cap (pos 0)); ok new_ordered_sparse

unfoldable pub len : OrderedSparse → ℤ
len o = pos (length o.topics)

-- `xs[i]`
abbrev pub load : List ℤ → ℕ → Run ℤ
load xs i = or_panic (get_elem? xs i)

unfoldable pub less : OrderedSparse → ℕ → ℕ → Run Bool
less o i j = do
  ci ← load o.counts i
  cj ← load o.counts j
  if ltb_ℤ cj ci
      then ok true
      else if eqb_ℤ ci cj
      then (do ti ← load o.topics i; tj ← load o.topics j; ok (ltb_ℤ ti tj))
      else ok false

unfoldable pub swap : OrderedSparse → ℕ → ℕ → Run OrderedSparse
swap o i j = do
  tj ← load o.topics j
  ti ← load o.topics i
  cj ← load o.counts j
  ci ← load o.counts i
  ok (record { topics = set (set o.topics i tj) j ti; counts = set (set o.counts i cj) j ci })

-- At: the loop over `o.Topics`.
unfoldable pub at_loop : List ℤ → List ℤ → ℤ → Run ℤ
at_loop [] counts topic = ok (pos 0)
at_loop (t ∷ topics) counts topic =
    if eqb_ℤ t topic
    then load counts 0
    else (at_loop topics (elim counts [ [] ↦ [] | _ ∷ rest ↦ rest ]) topic)

unfoldable pub at : OrderedSparse → ℤ → Run ℤ
unfolding at_loop
at o topic = at_loop o.topics o.counts topic

-- The search of Inc and Dec: the first index of `t`, or the length.
unfoldable pub find_index : List ℤ → ℤ → ℕ
find_index [] t = zero
find_index (x ∷ topics) t = if eqb_ℤ x t then zero else suc (find_index topics t)

-- `for i > 0 && c > o.Counts[i-1] { o.Topics[i], o.Counts[i] = o.Topics[i-1], o.Counts[i-1]; i-- }`
unfoldable pub shift_left : ℕ → OrderedSparse → ℤ → Run (ℕ × OrderedSparse)
shift_left zero o c = ok (zero, o)
shift_left (suc i) o c = load o.counts i >>= λ prev. elim (ltb_ℤ prev c) [
  | true ↦ load o.topics i >>= λ t.
      shift_left i (record { topics = set o.topics (suc i) t; counts = set o.counts (suc i) prev })
        c
  | false ↦ ok (suc i, o)
]

-- `for i+1 < len(o.Topics) && c < o.Counts[i+1] { … = o.Topics[i+1], o.Counts[i+1]; i++ }`, by the
-- number of entries behind `i`.
unfoldable pub shift_right : ℕ → ℕ → OrderedSparse → ℤ → Run (ℕ × OrderedSparse)
shift_right zero i o c = ok (i, o)
shift_right (suc n) i o c = load o.counts (suc i) >>= λ next. elim (ltb_ℤ c next) [
  | true ↦ load o.topics (suc i) >>= λ t.
      shift_right n (suc i) (record { topics = set o.topics i t; counts = set o.counts i next }) c
  | false ↦ ok (i, o)
]

-- `o.Topics[i] = t; o.Counts[i] = c`
unfoldable pub put : OrderedSparse → ℕ → ℤ → ℤ → OrderedSparse
put o i t c = record { topics = set o.topics i t; counts = set o.counts i c }

-- Inc's first half: raise the count at `i`, or append. The overflow test names the topic `t`.
unfoldable pub raise : OrderedSparse → ℕ → ℤ → ℤ → Run OrderedSparse
raise o i t c =
    if ltb i (length o.topics)
    then (do
      v ← load o.counts i
      panic_if (leb_ℤ (sub32 max_int32 t) v)
      ok (record o { counts = set o.counts i (add32 v c) }))
    else ok (record { topics = o.topics ++ t ∷ []; counts = o.counts ++ c ∷ [] })

-- Inc's second half: move the entry at `i` up to its place.
unfoldable pub settle_left : OrderedSparse → ℕ → ℤ → Run OrderedSparse
settle_left o i t = do c ← load o.counts i; (k, shifted) ← shift_left i o c; ok (put shifted k t c)

unfoldable pub inc : OrderedSparse → ℤ → ℤ → Run OrderedSparse
inc o topic count = do
  panic_if (ltb_ℤ topic (pos 0))
  panic_if (leb_ℤ count (pos 0))
  panic_if (ltb_ℤ max_int32 count)
  let t = int32 topic
  let i = find_index o.topics t
  raised ← raise o i t (int32 count)
  settle_left raised i t

-- Dec's first half: take `c` off the count at `i`; the two panics of an unknown topic and of a count
-- that is too small.
unfoldable pub lower : OrderedSparse → ℕ → ℤ → Run OrderedSparse
lower o i c = do
  panic_if (leb (length o.topics) i)
  v ← load o.counts i
  panic_if (ltb_ℤ v c)
  ok (record o { counts = set o.counts i (sub32 v c) })

-- Dec's second half: move the entry at `i` down to its place, and cut the arrays there if its count
-- is zero.
unfoldable pub settle_right : OrderedSparse → ℕ → ℤ → Run OrderedSparse
settle_right o i t = do
  c ← load o.counts i
  (k, shifted) ← shift_right (length o.topics - suc i) i o c
  let final = put shifted k t c
  ok (
      if eqb_ℤ c (pos 0)
      then record { topics = take k final.topics; counts = take k final.counts }
      else final)

unfoldable pub dec : OrderedSparse → ℤ → ℤ → Run OrderedSparse
dec o topic count = do
  panic_if (ltb_ℤ topic (pos 0))
  panic_if (leb_ℤ count (pos 0))
  let t = int32 topic
  let i = find_index o.topics t
  lowered ← lower o i (int32 count)
  settle_right lowered i t

-- The loop of ForEach.
unfoldable pub for_each_loop :
    {S E : Type 0} → Visitor S E → List ℤ → List ℤ → S → Run (S × Option E)
for_each_loop p [] counts s = ok (s, none)
for_each_loop p (t ∷ topics) [] s = panic
for_each_loop p (t ∷ topics) (c ∷ counts) s = p t c s >>= λ (s', e). elim e [
  | some x ↦ ok (s', some x)
  | none ↦ for_each_loop p topics counts s'
]

unfoldable pub for_each : {S E : Type 0} → Visitor S E → OrderedSparse → S → Run (S × Option E)
unfolding for_each_loop
for_each p o s = for_each_loop p o.topics o.counts s

-- Clone copies both arrays.
unfoldable pub clone : OrderedSparse → OrderedSparse
clone o = record { topics = o.topics; counts = o.counts }
