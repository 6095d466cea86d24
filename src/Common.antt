-- ===== src/Common.antt =====
-- apps/api/src/common: what several services share.
pub mod Counter
mod Tests
