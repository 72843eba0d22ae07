-- ===== src/Scheduler.antt =====
-- Project 2/schedule.c and schedule.h.
pub mod Machine
pub mod Queue
pub mod Scan
pub mod Select
pub mod Dispatch
pub mod System
pub mod Sample
pub mod Examples
