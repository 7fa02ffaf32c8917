-- ===== src/Util.antt =====
-- src/util.ts.
pub mod Shell
