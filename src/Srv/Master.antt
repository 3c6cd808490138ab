-- ===== src/Srv/Master.antt =====
-- srv/master_service.go: the master of a job. Each call runs under the master's mutex, and is a
-- function of the master and of the outside state.
pub mod Iterations
pub mod Grouping
pub mod Queue
