-- ===== src/Zatca.antt =====
-- The tax documents: apps/api/src/zatca.
pub mod Vat
pub mod Tlv
pub mod Chain
pub mod Issue
mod Tests
