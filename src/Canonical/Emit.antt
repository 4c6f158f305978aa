-- ===== src/Canonical/Emit.antt =====
-- The ToStoat methods of internal/canonical/emit.go, and category.go.
use luars_stoatcord.Prelude.{String, ◌≡◌, refl, ap, Option, none, some, []}
use luars_stoatcord.Prelude.Maps.{
  Map, lookup, copy, lookup-copy, map_values, lookup-map_values, map_option, or_else,
}
use luars_stoatcord.Canonical.Types.{
  Overwrite, Server, ChannelType, text, voice, other_type, Channel, Role, Emoji, Message, StoatRole,
  StoatChannel, StoatEmoji, StoatServer, StoatMessage,
}
use luars_stoatcord.Canonical.Permission

-- Role.ToStoat
unfoldable pub role_to_stoat : Role → StoatRole
role_to_stoat r = record {
  name = r.name;
  colour = r.colour;
  hoist = r.hoist;
  rank = r.rank;
  permissions = Permission.to_stoat r.permissions;
}

-- stoatChannelTypes, with the empty text for a missing key
abbrev pub stoat_channel_types : ChannelType → String
stoat_channel_types text = "Text"
stoat_channel_types voice = "Voice"
stoat_channel_types (other_type s) = ""

-- Channel.ToStoat
unfoldable pub channel_to_stoat : Channel → StoatChannel
channel_to_stoat c = record {
  name = c.name;
  kind = stoat_channel_types c.kind;
  overwrites = map_values Permission.to_stoat c.overwrites;
}

-- Emoji.ToStoat
unfoldable pub emoji_to_stoat : Emoji → StoatEmoji
emoji_to_stoat e = record { name = e.name; animated = e.animated; nsfw = e.nsfw }

-- Server.ToStoat
unfoldable pub server_to_stoat : Server → StoatServer
server_to_stoat s = record {
  name = s.name;
  description = s.description;
  icon_ref = s.icon_ref;
  banner_ref = s.banner_ref;
}

-- Message.ToStoat
unfoldable pub message_to_stoat : Message → StoatMessage
message_to_stoat m = record {
  content = m.content;
  masquerade = record {
    name = m.author_name;
    avatar = m.author_avatar_ref;
    colour = m.author_colour;
  };
  attachments = m.attachment_refs;
  reply_to_stoat_id = "";
}

unfoldable pub expand_category_permissions : Map Overwrite → Channel → Channel
expand_category_permissions category_overwrites c = record c {
  overwrites = copy (copy [] category_overwrites) c.overwrites;
}

or_else-none {ℓ} : {A : Type ℓ} (o : Option A) → or_else o none ≡ o
or_else-none none = refl
or_else-none (some a) = refl

-- The overwrite that Stoat gets for a role on an expanded channel: the channel's own if it has one,
-- else the category's, else none.
expand_category_permissions_lem :
    (category_overwrites : Map Overwrite) (c : Channel) (role_id : String)
    → lookup role_id
        (channel_to_stoat (expand_category_permissions category_overwrites c)).overwrites
      ≡ map_option Permission.to_stoat
          (or_else (lookup role_id c.overwrites) (lookup role_id category_overwrites))
unfolding channel_to_stoat expand_category_permissions lookup
expand_category_permissions_lem cs c k =
    rw
      (
        lookup-map_values Permission.to_stoat k (copy (copy [] cs) c.overwrites),
        lookup-copy k (copy [] cs) c.overwrites,
        lookup-copy k [] cs,
      )
      (ap (λ o. map_option Permission.to_stoat (or_else (lookup k c.overwrites) o))
        (or_else-none (lookup k cs)))
