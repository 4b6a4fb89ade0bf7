-- ===== src/Storage.antt =====
-- The physical files of the server, and the zip archives of directories.
pub mod FileHandler
pub mod ZipHandler
