-- ===== src/FileCache.antt =====
-- src/cosim/file_cache.cpp: directories that are handed out, for writing or for reading.
pub mod Temporary
pub mod Owners
pub mod Sharing
pub mod Lock
