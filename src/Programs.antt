-- ===== src/Programs.antt =====
-- The programs that answer the requests of the web server.
pub mod DataCgi
pub mod Together
pub mod Upload
