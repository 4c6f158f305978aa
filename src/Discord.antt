-- ===== src/Discord.antt =====
-- internal/discord: how an event of Discord becomes ops. Translation and Assembly make canonical
-- entities of discordgo's structures, the ops are built of canonical entities, and Handlers says
-- which ops an event submits.
pub mod Compare
pub mod Gateway
pub mod Categories
pub mod Applying
pub mod Keeping
pub mod Resending
pub mod Deleting
pub mod Diffing
pub mod Translation
pub mod Messages
pub mod Assembly
pub mod Handlers
pub mod Gif
pub mod Ready
