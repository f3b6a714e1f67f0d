-- ===== src/Cgi.antt =====
-- The users of the CGI programs: login_cgi.c and reg_cgi.c of src_cgi/, and helpers of
-- common/util_cgi.c and common/deal_mysql.c.
pub mod Mysql
pub mod MysqlText
pub mod Token
pub mod Body
pub mod Idle
pub mod Login
pub mod LoginLoop
pub mod SessionMap
pub mod Refined
pub mod Sessions
pub mod LoginTrip
pub mod Guessing
pub mod Memstr
pub mod FirstPlace
mod Runs
mod JoinRuns
pub mod Register
pub mod JsonText
pub mod RegisterLoop
pub mod UserSet
pub mod Joins
pub mod Joined
pub mod UserMemory
pub mod Registered
