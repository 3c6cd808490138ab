-- ===== src/Hist.antt =====
-- core/hist: histograms of topics.
pub mod Visit
pub mod Dense
pub mod Sparse
pub mod Ordered
pub mod Interface
pub mod Convert
pub mod Traverse
pub mod Refine
