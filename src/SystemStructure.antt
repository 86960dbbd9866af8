-- ===== src/SystemStructure.antt =====
-- include/cosim/system_structure.hpp and src/cosim/system_structure.cpp: what a system is made of.
pub mod Defs
pub mod Operations
pub mod Tables
pub mod Growth
pub mod Invariant
pub mod Values
pub mod Compose
