-- ===== src/Tests.antt =====
-- The theorems at concrete inputs, and runs of the definitions.
mod Inputs
mod Toy
mod Records
mod Texts
mod Listing
mod Server
mod Log
mod Storage
mod Programs
mod Redis
mod Shelf
mod Uploads
mod Values
mod Together
mod Concurrent
mod Staged
mod Forms
