-- ===== src/Config.antt =====
-- common/cfg.c and src_cgi/init.c: the configuration and the connections at the start.
pub mod Read
pub mod Start
pub mod Verify
pub mod Verified
mod Runs
