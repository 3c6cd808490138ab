-- ===== src/Utils.antt =====
-- core/utils and the tools of cmd: the input files, the description of topics and the progress of a
-- training.
pub mod Corpus
pub mod Translation
pub mod Describe
pub mod Progress
