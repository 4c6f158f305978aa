-- ===== src/Stoat.antt =====
-- internal/stoat: the client over the revolt library. A request to the Stoat server is an event of
-- the trace and a question to `Env`; the JSON that the server answers is read as typed values.
pub mod Client
pub mod Role
pub mod Channel
pub mod Server
pub mod Read
pub mod Attachment
pub mod Gateway
pub mod Elevation
pub mod Resolved
pub mod Guard
pub mod Overwrites
