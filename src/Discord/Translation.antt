-- ===== src/Discord/Translation.antt =====
-- internal/discord/permission.go, role.go, server.go and channel.go: the translation of discordgo's
-- structures. discordgo's constants are parameters.
pub mod Structures
pub mod Bits
pub mod Sidebar
pub mod Members
pub mod Order
pub use luars_stoatcord.Discord.Translation.Structures.{
  Constants, DiscordOverwrite, DiscordChannel, DiscordRole, DiscordGuild, DiscordEmoji,
}
use Prim.Native.Nat.{bit_and}
use Prim.Native.String.{◌++◌ as concat}
use luars_stoatcord.Prelude.{
  ℕ, zero, suc, ◌+◌, ◌-◌, ◌/◌, ◌%◌, ◌^◌, String, Bool, true, false, not, ◌&&◌, Option, none, some,
  List, [], ◌∷◌, ◌++◌, nat_eq, if◌then◌else◌,
}
use luars_stoatcord.Prelude.Int.{ℤ}
use luars_stoatcord.Prelude.Bits.{digit}
use luars_stoatcord.Prelude.Maps.{Map, insert}
use luars_stoatcord.Canonical.Types.{
  Permission, view_channel, read_history, send_messages, manage_messages, embed_links, attach_files,
  add_reactions, manage_channel, manage_server, manage_roles, create_invite, connect, speak, video,
  mute_members, deafen_members, move_members, manage_webhooks, manage_emoji, manage_nicks,
  kick_members, ban_members, timeout_members, mention_everyone, Overwrite, Role, Server, Emoji,
  Channel, ChannelType, text, voice,
}

-- discordPermissionBits
abbrev pub discord_permission_bits : ℕ
discord_permission_bits = 64

-- A Go map with number keys, read by its first entry; the keys of a literal are distinct.
unfoldable pub lookup_number : {A : Type 0} → ℕ → List (ℕ × A) → Option A
lookup_number n [] = none
lookup_number n ((m, a) ∷ rest) =
    let found = lookup_number n rest in if nat_eq m n then some a else found

abbrev pub prepend : {A : Type 0} → Option A → List A → List A
prepend none xs = xs
prepend (some x) xs = x ∷ xs

-- The digit of %X.
unfoldable pub nth_char : ℕ → String → String
nth_char n String.[] = ""
nth_char zero (String.◌∷◌ c s) = String.◌∷◌ c ""
nth_char (suc n) (String.◌∷◌ c s) = nth_char n s

-- %0nX of a number below 16 ^ digits: `width` digits at least.
unfoldable pub hex : (digits width : ℕ) → ℕ → String → String
unfolding nth_char
hex zero width n shown = shown
hex (suc digits) width n shown =
    let more =
      hex digits (width - 1) (n / 16) (concat (nth_char (n % 16) "0123456789ABCDEF") shown) in
    if nat_eq width 0 && nat_eq n 0 then shown else more

-- fmt.Sprintf("#%06X", color): an int has 16 digits at most
unfoldable pub colour_text : ℕ → String
unfolding hex
colour_text color = concat "#" (hex 16 6 color "")

-- ServerFromDiscord
unfoldable pub server_from_discord : DiscordGuild → Server
server_from_discord g = record {
  id = g.id;
  name = g.name;
  description = g.description;
  icon_ref = g.icon;
  banner_ref = g.banner;
}

-- EmojiFromDiscord
unfoldable pub emoji_from_discord : DiscordEmoji → Emoji
emoji_from_discord e = record { id = e.id; name = e.name; animated = e.animated; nsfw = false }

module _ (c : Constants) where
  -- bitsToCanonical
  unfoldable pub bits_to_canonical : List (ℕ × Permission)
  bits_to_canonical =
      (c.permission_view_channel, view_channel)
      ∷ (c.permission_read_message_history, read_history)
      ∷ (c.permission_send_messages, send_messages)
      ∷ (c.permission_manage_messages, manage_messages)
      ∷ (c.permission_embed_links, embed_links)
      ∷ (c.permission_attach_files, attach_files)
      ∷ (c.permission_add_reactions, add_reactions)
      ∷ (c.permission_manage_channels, manage_channel)
      ∷ (c.permission_manage_guild, manage_server)
      ∷ (c.permission_manage_roles, manage_roles)
      ∷ (c.permission_create_instant_invite, create_invite)
      ∷ (c.permission_voice_connect, connect)
      ∷ (c.permission_voice_speak, speak)
      ∷ (c.permission_voice_stream_video, video)
      ∷ (c.permission_voice_mute_members, mute_members)
      ∷ (c.permission_voice_deafen_members, deafen_members)
      ∷ (c.permission_voice_move_members, move_members)
      ∷ (c.permission_manage_webhooks, manage_webhooks)
      ∷ (c.permission_manage_guild_expressions, manage_emoji)
      ∷ (c.permission_manage_nicknames, manage_nicks)
      ∷ (c.permission_kick_members, kick_members)
      ∷ (c.permission_ban_members, ban_members)
      ∷ (c.permission_moderate_members, timeout_members)
      ∷ (c.permission_mention_everyone, mention_everyone)
      ∷ []

  -- The loop of PermissionsFromBits, from bit `pos` on with `left` bits to go. A bit that is set
  -- and has no canonical permission is only logged.
  unfoldable pub permissions_from : (left pos : ℕ) → ℕ → List Permission
  permissions_from zero pos bits = []
  permissions_from (suc left) pos bits =
      let rest = permissions_from left (suc pos) bits in
      if nat_eq (digit pos bits) 0
      then rest
      else prepend (lookup_number (2 ^ pos) bits_to_canonical) rest

  -- PermissionsFromBits
  unfoldable pub permissions_from_bits : ℕ → List Permission
  permissions_from_bits bits = permissions_from discord_permission_bits 0 bits

  -- RoleFromDiscord
  unfoldable pub role_from_discord : DiscordRole → Role
  role_from_discord r = record {
    id = r.id;
    name = r.name;
    colour = colour_text r.color;
    hoist = r.hoist;
    rank = r.position;
    permissions = record { allow = permissions_from_bits r.permissions; deny = [] };
    privileged = not (nat_eq (bit_and r.permissions c.permission_administrator) 0);
  }

  -- channelTypeMap, and ChannelTypeFromDiscord
  unfoldable pub channel_type_from_discord : ℕ → Option ChannelType
  channel_type_from_discord t = lookup_number t (
      (c.guild_text, text)
      ∷ (c.guild_news, text)
      ∷ (c.guild_forum, text)
      ∷ (c.guild_voice, voice)
      ∷ (c.guild_stage_voice, voice)
      ∷ [])

  -- OverwriteFromDiscord: none for a member's overwrite
  unfoldable pub overwrite_from_discord : DiscordOverwrite → Option (String × Overwrite)
  overwrite_from_discord ow =
      if nat_eq ow.kind c.overwrite_member
      then none
      else some (
        ow.id,
        record { allow = permissions_from_bits ow.allow; deny = permissions_from_bits ow.deny },
      )

  abbrev add_overwrite : Option (String × Overwrite) → Map Overwrite → Map Overwrite
  add_overwrite none m = m
  add_overwrite (some (id, ow)) m = insert id ow m

  unfoldable pub overwrites_from_discord : List DiscordOverwrite → Map Overwrite → Map Overwrite
  overwrites_from_discord [] m = m
  overwrites_from_discord (ow ∷ ows) m =
      overwrites_from_discord ows (add_overwrite (overwrite_from_discord ow) m)

  abbrev channel_of : DiscordChannel → Option ChannelType → Option Channel
  channel_of ch none = none
  channel_of ch (some t) = some (record {
    id = ch.id;
    name = ch.name;
    kind = t;
    category_id = ch.parent_id;
    position = ch.position;
    overwrites = overwrites_from_discord ch.permission_overwrites [];
  })

  -- ChannelFromDiscord: none for a channel that is not mirrored
  unfoldable pub channel_from_discord : DiscordChannel → Option Channel
  channel_from_discord ch = channel_of ch (channel_type_from_discord ch.kind)
