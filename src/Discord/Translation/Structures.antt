-- ===== src/Discord/Translation/Structures.antt =====
-- The structures of discordgo that internal/discord reads, and the constants that it names. A record has
-- the fields that the code reads. A 64-bit mask is the number of its bit pattern.
use luars_stoatcord.Prelude.{ℕ, String, Bool, List}
use luars_stoatcord.Prelude.Int.{ℤ}

-- The constants of discordgo that the code names.
pub record Constants : Type 0 where
  pub guild_text : ℕ
  pub guild_news : ℕ
  pub guild_forum : ℕ
  pub guild_voice : ℕ
  pub guild_stage_voice : ℕ
  pub guild_category : ℕ
  pub overwrite_member : ℕ
  pub permission_view_channel : ℕ
  pub permission_read_message_history : ℕ
  pub permission_send_messages : ℕ
  pub permission_manage_messages : ℕ
  pub permission_embed_links : ℕ
  pub permission_attach_files : ℕ
  pub permission_add_reactions : ℕ
  pub permission_manage_channels : ℕ
  pub permission_manage_guild : ℕ
  pub permission_manage_roles : ℕ
  pub permission_create_instant_invite : ℕ
  pub permission_voice_connect : ℕ
  pub permission_voice_speak : ℕ
  pub permission_voice_stream_video : ℕ
  pub permission_voice_mute_members : ℕ
  pub permission_voice_deafen_members : ℕ
  pub permission_voice_move_members : ℕ
  pub permission_manage_webhooks : ℕ
  pub permission_manage_guild_expressions : ℕ
  pub permission_manage_nicknames : ℕ
  pub permission_kick_members : ℕ
  pub permission_ban_members : ℕ
  pub permission_moderate_members : ℕ
  pub permission_mention_everyone : ℕ
  pub permission_administrator : ℕ

pub record DiscordOverwrite : Type 0 where
  pub id : String
  pub kind : ℕ
  pub allow : ℕ
  pub deny : ℕ

pub record DiscordChannel : Type 0 where
  pub id : String
  pub name : String
  pub kind : ℕ
  pub parent_id : String
  pub position : ℤ
  pub permission_overwrites : List DiscordOverwrite

pub record DiscordRole : Type 0 where
  pub id : String
  pub name : String
  pub color : ℕ
  pub hoist : Bool
  pub position : ℤ
  pub permissions : ℕ

pub record DiscordGuild : Type 0 where
  pub id : String
  pub name : String
  pub description : String
  pub icon : String
  pub banner : String
  pub channels : List DiscordChannel
  pub roles : List DiscordRole

pub record DiscordEmoji : Type 0 where
  pub id : String
  pub name : String
  pub animated : Bool
