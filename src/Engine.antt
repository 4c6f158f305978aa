-- ===== src/Engine.antt =====
-- internal/engine: one op is sequenced as health check, diff, write-pending, remote call, confirm
-- (Op, Remote, Process), also among other goroutines (Interference); the limiter spaces the remote
-- calls (Limiter), and the workers and waiters schedule the ops (Scheduling).
pub mod Op
pub mod Remote
pub mod Process
pub mod Outcome
pub mod Gates
pub mod Limiter
pub mod Retries
pub mod Stable
pub mod Asking
pub mod Interference
pub mod Scheduling
