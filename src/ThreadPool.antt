-- ===== src/ThreadPool.antt =====
-- core/src/thread_pool_scheduler.cpp: `ThreadPoolScheduler`. `Config` has the configuration, `State`
-- the tables, `Graph` the walks over the dependency graph, `Pick` the choice of the next task,
-- `Submission` and `Requests` the calls of the interface, `Worker` what a worker thread does, and `Steps` puts the
-- locked sections together. The other modules prove.
pub mod Config
pub mod State
pub mod Graph
pub mod Pick
pub mod Submission
pub mod Requests
pub mod Worker
pub mod Steps
pub mod Search
pub mod Cycles
pub mod Choice
pub mod Starting
pub mod Terminal
pub mod Walks
pub mod Reached
pub mod Propagation
pub mod Nodes
pub mod Changes
pub mod Accounts
pub mod Outcomes
pub mod Soundness
pub mod Defects
mod Examples
