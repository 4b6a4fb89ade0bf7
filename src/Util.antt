-- ===== src/Util.antt =====
-- The utilities of server/src/util that are not input or output.
pub mod Hex
pub mod Md5
