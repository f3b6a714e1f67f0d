-- ===== src/Redis.antt =====
-- common/redis_op.c: the wrappers of hiredis.
pub mod Hiredis
pub mod Keys
pub mod Connect
pub mod Hmset
pub mod Hash
pub mod Lists
pub mod Strings
pub mod Zset
pub mod Pipeline
pub mod Store
pub mod Sessions
pub mod Ranges
pub mod Scores
pub mod HmsetText
pub mod HashStore
pub mod HashTrip
pub mod HashMemory
pub mod Memory
mod Runs
mod HashRuns
