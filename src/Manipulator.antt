-- ===== src/Manipulator.antt =====
-- src/cosim/manipulator and include/cosim/scenario.hpp: what changes the variables of the simulators
-- from outside the connections.
pub mod Actions
pub mod Causality
pub mod Override
pub mod Scenario
