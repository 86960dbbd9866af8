-- ===== src/Function.antt =====
-- include/cosim/function and src/cosim/function: functions that are calculated between steps.
pub mod Description
pub mod Substitute
pub mod Parameters
pub mod VectorSum
pub mod Sums
pub mod Instances
pub mod LinearTransformation
pub mod Lines
