-- ===== src/ThreadPool.antt =====
-- src/cosim/utility/thread_pool.hpp: the workers that run the tasks of a step.
pub mod Defs
pub mod Counts
