-- ===== src/Directory.antt =====
-- The directory server, src/fsdird.c.
pub mod Path
pub mod Tree
pub mod Handlers
pub mod Serve
pub mod System
pub mod Threads
