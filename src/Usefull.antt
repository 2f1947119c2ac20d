-- ===== src/Usefull.antt =====
-- src/usefull.c: the helpers of the two programs, upload and data_cgi.
pub mod TrimSpace
pub mod Suffix
pub mod Query
pub mod Memstr
pub mod System
pub mod Storage
pub mod Upload
pub mod WriteRedis
