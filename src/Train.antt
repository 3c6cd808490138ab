-- ===== src/Train.antt =====
-- cmd/singlethread and cmd/multithread: the two trainers on one machine.
pub mod Single
pub mod Multi
pub mod Documents
pub mod Shards
