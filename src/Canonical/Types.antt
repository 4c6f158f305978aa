-- ===== src/Canonical/Types.antt =====
-- internal/canonical/types.go, the permission vocabulary and overwrites of permission.go, and the
-- wire shapes of emit.go. A Go slice is a list: a nil slice and an empty one are not told apart.
use luars_stoatcord.Prelude.{ℕ, String, Bool, List}
use luars_stoatcord.Prelude.Int.{ℤ}
use luars_stoatcord.Prelude.Maps.{Map}

-- The constants of `Permission`. Any other text is `unrecognized`.
pub data Permission : Type 0 where
  view_channel read_history send_messages manage_messages embed_links attach_files : Permission
  add_reactions manage_channel manage_server manage_roles create_invite connect : Permission
  speak video mute_members deafen_members move_members manage_webhooks : Permission
  manage_emoji manage_nicks kick_members ban_members timeout_members mention_everyone : Permission
  view_audit_log use_app_commands priority_speaker send_tts : Permission
  unrecognized : String → Permission

pub record Overwrite : Type 0 where
  pub allow : List Permission
  pub deny : List Permission

pub record StoatOverwrite : Type 0 where
  pub allow : ℕ
  pub deny : ℕ

pub record Server : Type 0 where
  pub id : String
  pub name : String
  pub description : String
  pub icon_ref : String
  pub banner_ref : String

pub record Category : Type 0 where
  pub id : String
  pub name : String
  pub channel_ids : List String
  pub position : ℤ

-- `ChannelType`: "text", "voice", or another text (the zero value is the empty one).
pub data ChannelType : Type 0 where
  text voice : ChannelType
  other_type : String → ChannelType

pub record Channel : Type 0 where
  pub id : String
  pub name : String
  pub kind : ChannelType
  pub category_id : String
  pub position : ℤ
  pub overwrites : Map Overwrite

pub record Role : Type 0 where
  pub id : String
  pub name : String
  pub colour : String
  pub hoist : Bool
  pub rank : ℤ
  pub permissions : Overwrite
  pub privileged : Bool

pub record Emoji : Type 0 where
  pub id : String
  pub name : String
  pub animated : Bool
  pub nsfw : Bool

pub record Message : Type 0 where
  pub id : String
  pub channel_id : String
  pub author_name : String
  pub author_avatar_ref : String
  pub author_colour : String
  pub content : String
  pub attachment_refs : List String
  pub reply_to_id : String

pub record StoatRole : Type 0 where
  pub name : String
  pub colour : String
  pub hoist : Bool
  pub rank : ℤ
  pub permissions : StoatOverwrite

pub record StoatChannel : Type 0 where
  pub name : String
  pub kind : String
  pub overwrites : Map StoatOverwrite

pub record StoatEmoji : Type 0 where
  pub name : String
  pub animated : Bool
  pub nsfw : Bool

pub record StoatServer : Type 0 where
  pub name : String
  pub description : String
  pub icon_ref : String
  pub banner_ref : String

pub record StoatMasquerade : Type 0 where
  pub name : String
  pub avatar : String
  pub colour : String

pub record StoatMessage : Type 0 where
  pub content : String
  pub masquerade : StoatMasquerade
  pub attachments : List String
  pub reply_to_stoat_id : String
