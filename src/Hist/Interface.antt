-- ===== src/Hist/Interface.antt =====
-- core/hist/histogram.go: the interface Hist, as the sum of its three implementations.
use open_peacock.Prelude.{Option}
use open_peacock.Prelude.Int.{ℤ}
use open_peacock.Prelude.Run.{Run, ok, ◌>>=◌}
use open_peacock.Runtime.{Runtime}
use open_peacock.Hist.Visit.{Visitor}
use open_peacock.Hist.Dense
use open_peacock.Hist.Dense.{Dense}
use open_peacock.Hist.Sparse
use open_peacock.Hist.Sparse.{Sparse, value}
use open_peacock.Hist.Ordered
use open_peacock.Hist.Ordered.{OrderedSparse}
use open_peacock.Hist.Ordered.Entries.{entries}

pub data Hist : Type 0 where
  dense : Dense → Hist
  sparse : Sparse → Hist
  ordered : OrderedSparse → Hist

unfoldable pub at : Hist → ℤ → Run ℤ
at (dense d) topic = Dense.at d topic
at (sparse s) topic = ok (Sparse.at s topic)
at (ordered o) topic = Ordered.at o topic

unfoldable pub inc : Hist → ℤ → ℤ → Run Hist
inc (dense d) topic count = Dense.inc d topic count >>= λ d'. ok (dense d')
inc (sparse s) topic count = Sparse.inc s topic count >>= λ s'. ok (sparse s')
inc (ordered o) topic count = Ordered.inc o topic count >>= λ o'. ok (ordered o')

unfoldable pub dec : Hist → ℤ → ℤ → Run Hist
dec (dense d) topic count = Dense.dec d topic count >>= λ d'. ok (dense d')
dec (sparse s) topic count = Sparse.dec s topic count >>= λ s'. ok (sparse s')
dec (ordered o) topic count = Ordered.dec o topic count >>= λ o'. ok (ordered o')

unfoldable pub len : Hist → ℤ
len (dense d) = Dense.len d
len (sparse s) = Sparse.len s
len (ordered o) = Ordered.len o

module _ (go : Runtime) where
  unfoldable pub for_each : {S E : Type 0} → Visitor S E → Hist → S → Run (S × Option E)
  for_each p (dense d) s = Dense.for_each p d s
  for_each p (sparse h) s = Sparse.for_each go p h s
  for_each p (ordered o) s = Ordered.for_each p o s

  unfoldable pub clone : Hist → Run Hist
  clone (dense d) = Dense.clone d >>= λ n. ok (dense n)
  clone (sparse s) = ok (sparse (Sparse.clone go s))
  clone (ordered o) = ok (ordered (Ordered.clone o))

-- The abstract histogram: the count of each topic.
abbrev pub counts : Hist → ℤ → ℤ
counts (dense d) = Dense.count d
counts (sparse s) = value s
counts (ordered o) = value (entries o)
