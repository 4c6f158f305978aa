-- ===== src/Reconcile.antt =====
-- internal/reconcile: the startup pass that binds what exists on both sides (Bind), and the pass
-- that checks what was bound against Stoat's live state (Live).
pub mod Bind
pub mod Live
