-- ===== src/Canonical/Vocabulary.antt =====
-- The permission texts of internal/canonical/permission.go and their canonical order of state.go.
use Prim.Native.Nat.{Ordering}
use Prim.Native.String.{compare}
use luars_stoatcord.Prelude.{String, Bool, true, false, List, [], ◌∷◌, ◌==◌, if◌then◌else◌}
use luars_stoatcord.Canonical.Types.{
  Permission, view_channel, read_history, send_messages, manage_messages, embed_links, attach_files,
  add_reactions, manage_channel, manage_server, manage_roles, create_invite, connect, speak, video,
  mute_members, deafen_members, move_members, manage_webhooks, manage_emoji, manage_nicks,
  kick_members, ban_members, timeout_members, mention_everyone, view_audit_log, use_app_commands,
  priority_speaker, send_tts, unrecognized, Overwrite,
}

-- The texts of the Permission constants.
unfoldable pub permission_text : Permission → String
permission_text view_channel = "VIEW_CHANNEL"
permission_text read_history = "READ_HISTORY"
permission_text send_messages = "SEND_MESSAGES"
permission_text manage_messages = "MANAGE_MESSAGES"
permission_text embed_links = "EMBED_LINKS"
permission_text attach_files = "ATTACH_FILES"
permission_text add_reactions = "ADD_REACTIONS"
permission_text manage_channel = "MANAGE_CHANNEL"
permission_text manage_server = "MANAGE_SERVER"
permission_text manage_roles = "MANAGE_ROLES"
permission_text create_invite = "CREATE_INVITE"
permission_text connect = "CONNECT"
permission_text speak = "SPEAK"
permission_text video = "VIDEO"
permission_text mute_members = "MUTE_MEMBERS"
permission_text deafen_members = "DEAFEN_MEMBERS"
permission_text move_members = "MOVE_MEMBERS"
permission_text manage_webhooks = "MANAGE_WEBHOOKS"
permission_text manage_emoji = "MANAGE_EMOJI"
permission_text manage_nicks = "MANAGE_NICKNAMES"
permission_text kick_members = "KICK_MEMBERS"
permission_text ban_members = "BAN_MEMBERS"
permission_text timeout_members = "TIMEOUT_MEMBERS"
permission_text mention_everyone = "MENTION_EVERYONE"
permission_text view_audit_log = "VIEW_AUDIT_LOG"
permission_text use_app_commands = "USE_APP_COMMANDS"
permission_text priority_speaker = "PRIORITY_SPEAKER"
permission_text send_tts = "SEND_TTS"
permission_text (unrecognized s) = s

abbrev pub constants : List Permission
constants =
    view_channel ∷ read_history ∷ send_messages ∷ manage_messages ∷ embed_links ∷ attach_files
    ∷ add_reactions ∷ manage_channel ∷ manage_server ∷ manage_roles ∷ create_invite ∷ connect
    ∷ speak ∷ video ∷ mute_members ∷ deafen_members ∷ move_members ∷ manage_webhooks ∷ manage_emoji
    ∷ manage_nicks ∷ kick_members ∷ ban_members ∷ timeout_members ∷ mention_everyone
    ∷ view_audit_log ∷ use_app_commands ∷ priority_speaker ∷ send_tts ∷ []

unfoldable pub permission_among : String → List Permission → Permission
permission_among s [] = unrecognized s
permission_among s (p ∷ ps) =
    let rest = permission_among s ps in if permission_text p == s then p else rest

-- Permission(s)
abbrev pub parse_permission : String → Permission
parse_permission s = permission_among s constants

abbrev pub text_leb : String → String → Bool
text_leb a b = elim (compare a b) [ Ordering.gt ↦ false | _ ↦ true ]

unfoldable pub place : Permission → List Permission → List Permission
place p [] = p ∷ []
place p (q ∷ ps) =
    let rest = place p ps in
    if text_leb (permission_text p) (permission_text q) then p ∷ q ∷ ps else q ∷ rest

-- slices.Sort, whose result does not depend on how it sorts
unfoldable pub sorted_permissions : List Permission → List Permission
sorted_permissions [] = []
sorted_permissions (p ∷ ps) = place p (sorted_permissions ps)

unfoldable pub canonicalize : Overwrite → Overwrite
canonicalize o = record { allow = sorted_permissions o.allow; deny = sorted_permissions o.deny }
