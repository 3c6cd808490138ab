-- ===== src/Srv.antt =====
-- srv: the services that train a model on several machines.
pub mod Config
pub mod Task
pub mod World
pub mod Process
pub mod Connect
pub mod Loader
pub mod Sampler
pub mod Master
pub mod Coordinator
pub mod Aggregator
