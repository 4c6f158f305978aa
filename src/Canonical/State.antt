-- ===== src/Canonical/State.antt =====
-- internal/canonical/state.go, and the CanonicalJSON methods and their inverses of emit.go. A
-- document is a tree; encoding/json writes the keys of a Go map in order. Decoding a list puts an
-- empty list where Go has nil.
pub mod RoundTrip
use Prim.Native.Nat.{Ordering}
use Prim.Native.String.{compare}
use luars_stoatcord.Prelude.{
  String, Bool, true, false, Option, none, some, List, [], ◌∷◌, map, ◌==◌, if◌then◌else◌,
}
use luars_stoatcord.Prelude.Maps.{Map}
use luars_stoatcord.Canonical.Result.{Result, ok, err, ◌>>=◌}
use luars_stoatcord.Canonical.Json.{
  Json, bool, num, str, arr, obj, Fields, end, field, get_field, as_fields, as_string, as_bool,
  as_int, as_strings, strings,
}
use luars_stoatcord.Canonical.Types.{
  Permission, view_channel, read_history, send_messages, manage_messages, embed_links, attach_files,
  add_reactions, manage_channel, manage_server, manage_roles, create_invite, connect, speak, video,
  mute_members, deafen_members, move_members, manage_webhooks, manage_emoji, manage_nicks,
  kick_members, ban_members, timeout_members, mention_everyone, view_audit_log, use_app_commands,
  priority_speaker, send_tts, unrecognized, Overwrite, Category, ChannelType, text, voice,
  other_type, Channel, Role, Message,
}
use luars_stoatcord.Canonical.Vocabulary.{
  permission_text, constants, permission_among, parse_permission, text_leb, place,
  sorted_permissions, canonicalize,
}

-- json.Marshal of an overwriteJSON
abbrev pub overwrite_json : Overwrite → Json
overwrite_json o = obj (
    field "allow" (arr (strings (map permission_text o.allow)))
      (field "deny" (arr (strings (map permission_text o.deny))) end))

abbrev pub parse_overwrite : Json → Result Overwrite
parse_overwrite j = do
  fs ← as_fields j
  allow ← as_strings (get_field "allow" fs)
  deny ← as_strings (get_field "deny" fs)
  ok (record { allow = map parse_permission allow; deny = map parse_permission deny })

abbrev place_by : Ordering → String → Json → String → Json → Fields → Fields → Fields
place_by Ordering.lt k v j w fs rest = field k v (field j w fs)
place_by Ordering.eq k v j w fs rest = field k v fs
place_by Ordering.gt k v j w fs rest = field j w rest

unfoldable pub place_field : String → Json → Fields → Fields
place_field k v end = field k v end
place_field k v (field j w fs) = place_by (compare k j) k v j w fs (place_field k v fs)

-- json.Marshal of a map: the keys in order
unfoldable pub overwrite_fields : Map Overwrite → Fields
overwrite_fields [] = end
overwrite_fields ((k, o) ∷ m) = place_field k (overwrite_json (canonicalize o)) (overwrite_fields m)

unfoldable pub parse_overwrites : Fields → Result (Map Overwrite)
parse_overwrites end = ok []
parse_overwrites (field k v fs) = do o ← parse_overwrite v; m ← parse_overwrites fs; ok ((k, o) ∷ m)

unfoldable pub channel_type_text : ChannelType → String
channel_type_text text = "text"
channel_type_text voice = "voice"
channel_type_text (other_type s) = s

abbrev pub parse_channel_type : String → ChannelType
parse_channel_type s = if s == "text" then text else if s == "voice" then voice else other_type s

-- Channel.CanonicalJSON
unfoldable pub channel_json : Channel → Json
channel_json c = obj (
    field "id" (str c.id) (
      field "name" (str c.name) (
        field "type" (str (channel_type_text c.kind)) (
          field "category_id" (str c.category_id) (
            field "position" (num c.position)
              (field "overwrites" (obj (overwrite_fields c.overwrites)) end))))))

unfoldable pub parse_channel : Json → Result Channel
parse_channel j = do
  fs ← as_fields j
  id ← as_string (get_field "id" fs)
  name ← as_string (get_field "name" fs)
  kind ← as_string (get_field "type" fs)
  category_id ← as_string (get_field "category_id" fs)
  position ← as_int (get_field "position" fs)
  entries ← as_fields (get_field "overwrites" fs)
  overwrites ← parse_overwrites entries
  ok (record {
    id = id;
    name = name;
    kind = parse_channel_type kind;
    category_id = category_id;
    position = position;
    overwrites = overwrites;
  })

-- Role.CanonicalJSON
unfoldable pub role_json : Role → Json
role_json r = obj (
    field "id" (str r.id) (
      field "name" (str r.name) (
        field "colour" (str r.colour) (
          field "hoist" (bool r.hoist) (
            field "rank" (num r.rank) (
              field "permissions" (overwrite_json (canonicalize r.permissions))
                (field "privileged" (bool r.privileged) end)))))))

unfoldable pub parse_role : Json → Result Role
parse_role j = do
  fs ← as_fields j
  id ← as_string (get_field "id" fs)
  name ← as_string (get_field "name" fs)
  colour ← as_string (get_field "colour" fs)
  hoist ← as_bool (get_field "hoist" fs)
  rank ← as_int (get_field "rank" fs)
  permissions ← parse_overwrite (get_field "permissions" fs)
  privileged ← as_bool (get_field "privileged" fs)
  ok (record {
    id = id;
    name = name;
    colour = colour;
    hoist = hoist;
    rank = rank;
    permissions = permissions;
    privileged = privileged;
  })

-- Category.CanonicalJSON
unfoldable pub category_json : Category → Json
category_json c = obj (
    field "id" (str c.id) (
      field "name" (str c.name) (
        field "channel_ids" (arr (strings c.channel_ids)) (field "position" (num c.position) end))))

unfoldable pub parse_category : Json → Result Category
parse_category j = do
  fs ← as_fields j
  id ← as_string (get_field "id" fs)
  name ← as_string (get_field "name" fs)
  channel_ids ← as_strings (get_field "channel_ids" fs)
  position ← as_int (get_field "position" fs)
  ok (record { id = id; name = name; channel_ids = channel_ids; position = position })

-- omitempty
abbrev reply_fields : String → Fields
reply_fields s = if s == "" then end else field "reply_to_id" (str s) end

-- Message.CanonicalJSON
unfoldable pub message_json : Message → Json
message_json m = obj (
    field "id" (str m.id) (
      field "channel_id" (str m.channel_id) (
        field "author_name" (str m.author_name) (
          field "author_avatar_ref" (str m.author_avatar_ref) (
            field "author_colour" (str m.author_colour) (
              field "content" (str m.content) (
                field "attachment_refs" (arr (strings m.attachment_refs))
                  (reply_fields m.reply_to_id))))))))

unfoldable pub parse_message : Json → Result Message
parse_message j = do
  fs ← as_fields j
  id ← as_string (get_field "id" fs)
  channel_id ← as_string (get_field "channel_id" fs)
  author_name ← as_string (get_field "author_name" fs)
  author_avatar_ref ← as_string (get_field "author_avatar_ref" fs)
  author_colour ← as_string (get_field "author_colour" fs)
  content ← as_string (get_field "content" fs)
  attachment_refs ← as_strings (get_field "attachment_refs" fs)
  reply_to_id ← as_string (get_field "reply_to_id" fs)
  ok (record {
    id = id;
    channel_id = channel_id;
    author_name = author_name;
    author_avatar_ref = author_avatar_ref;
    author_colour = author_colour;
    content = content;
    attachment_refs = attachment_refs;
    reply_to_id = reply_to_id;
  })
