-- ===== src/Util/Files.antt =====
-- src/Util/File.cpp: paths, the making of directories and the scan of them.
mod Tests
pub mod Paths
pub mod Create
pub mod Scan
pub mod Delete
