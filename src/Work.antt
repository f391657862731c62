-- ===== src/Work.antt =====
-- A worker: src/worker.ts (Worker), and what src/manager.ts gives it (work, settlePerJob).
pub mod Settle
pub mod Interval
pub mod Loop
pub mod Process
