-- ===== src/Content.antt =====
-- internal/content: validation, and the operations that the HTTP layer calls.
pub mod Validate
pub mod Service
