-- ===== src/Gibbs.antt =====
-- core/gibbs: the model, its documents, and Gibbs sampling.
pub mod Sharder
pub mod Model
pub mod Vocab
pub mod Document
pub mod Sampler
pub mod Optimizer
pub mod Accessor
pub mod Evaluator
pub mod Interpreter
