-- ===== src/Filesystem.antt =====
-- Project 4/filesystem: the deduplicating block store of our_lib.c, and the FUSE handlers of bbfs.c
-- that use it.
pub mod Bytes
pub mod Decimal
pub mod Stdio
pub mod Hashes
pub mod Blocks
pub mod Delete
pub mod Handlers
pub mod Service
pub mod Main
pub mod Kernel
pub mod Sample
pub mod Examples
