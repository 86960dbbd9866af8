-- ===== src/Observer.antt =====
-- src/cosim/observer/time_series_observer.cpp: the samples kept of one simulator.
pub mod Series
pub mod Last
pub mod Times
pub mod Reach
pub mod Windows
