-- ===== src/Md5.antt =====
-- common/md5.c: the digest of passwords, tokens and files.
pub mod Transform
pub mod Context
pub mod Blocks
pub mod Held
pub mod Rfc
pub mod Spec
pub mod HexText
mod Runs
