-- ===== src/Misc.antt =====
-- The helpers of yacul/misc.
pub mod ScopedExec
pub mod MonitorProcess
