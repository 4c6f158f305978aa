-- ===== src/Canonical.antt =====
-- internal/canonical: the neutral model that both platforms' translators target.
pub mod Result
pub mod Types
pub mod Json
pub mod Permission
pub mod Emit
pub mod Vocabulary
pub mod State
