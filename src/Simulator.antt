-- ===== src/Simulator.antt =====
-- src/cosim/slave_simulator.cpp: a slave behind caches of the variables that are read and written.
pub mod GetCache
pub mod SetCache
pub mod Impl
pub mod Slave
pub mod Variables
