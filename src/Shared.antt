-- ===== src/Shared.antt =====
-- packages/shared/src: what the applications share.
pub mod OrderStatus
pub mod Permissions
