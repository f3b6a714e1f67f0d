-- ===== src/Upload.antt =====
-- src_cgi/upload_cgi.c: the body of a request, the file that is written, and the rows that are
-- stored.
pub mod Body
pub mod Form
pub mod Store
pub mod Handler
pub mod Stored
pub mod Disk
pub mod DiskMemory
pub mod Session
pub mod Refused
mod Runs
mod DiskRuns
