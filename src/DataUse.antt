-- ===== src/DataUse.antt =====
-- src/data_use.c: what the program data_cgi reads from Redis and shows.
pub mod Fields
pub mod IpUrl
pub mod Replace
pub mod Listing
