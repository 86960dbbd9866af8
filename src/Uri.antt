-- ===== src/Uri.antt =====
-- src/cosim/uri.cpp and include/cosim/uri.hpp: URI references as bytes with subranges.
pub mod Chars
pub mod Defs
pub mod Grammar
pub mod Views
mod Consume
pub mod Parse
pub mod Unique
pub mod Compose
pub mod Query
pub mod Percent
pub mod Resolve
pub mod File
