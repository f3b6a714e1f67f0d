-- ===== src/Util.antt =====
-- The functions on text of common/util_cgi.c.
pub mod Strstr
pub mod Names
pub mod FileMd5
pub mod UserFile
pub mod Query
pub mod Trim
pub mod Replace
mod Runs
