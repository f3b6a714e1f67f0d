-- ===== src/Md5Cgi.antt =====
-- src_cgi/md5_cgi.c: a file that the server has already is given to another user.
pub mod Blocks
pub mod Clean
pub mod Handler
pub mod Invariant
pub mod Loop
pub mod Stale
pub mod Shared
mod Runs
