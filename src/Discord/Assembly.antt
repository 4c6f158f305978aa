-- ===== src/Discord/Assembly.antt =====
-- internal/discord/message.go: the canonical message that BuildMessageOp assembles, with the author's
-- display fields and the GIF link of gif.go. A record named after a structure of discordgo has the
-- fields that the code reads. What gifHostPattern finds in a text is a parameter, empty for nothing.
pub mod Sending
use Prim.Native.Char.{code}
use luars_stoatcord.Prelude.{
  ℕ, zero, suc, ◌≡◌, ◌≢◌, ◌≤◌, refl, ◌⊎◌, inl, inr, String, Bool, true, false, not, ◌&&◌, ◌||◌,
  ◌==◌, Option, none, some, List, [], ◌∷◌, ◌++◌, length, length-append, nat_eq, ltb, leb,
  if◌then◌else◌, arith, Bool-cases, eq_iff,
}
use luars_stoatcord.Prelude.Int.{ℤ, negsuc, ltb_ℤ}
use luars_stoatcord.Canonical.Types.{Message}
use luars_stoatcord.Engine.Op.{OpKind, op_create}
use luars_stoatcord.Discord.Translation.{DiscordRole, colour_text}

pub record DiscordUser : Type 0 where
  pub id : String
  pub username : String
  pub avatar_url : String

pub record DiscordMember : Type 0 where
  pub nick : String
  pub roles : List String

pub record DiscordMessage : Type 0 where
  pub id : String
  pub channel_id : String
  pub content : String
  pub author : Option DiscordUser
  pub member : Option DiscordMember
  pub reference : Option (ℕ × String)
  pub attachment_urls : List String

-- A message that is not mirrored, the dereference of a nil Author, or a message.
pub data Assembly : Type 0 where
  skipped panicked : Assembly
  assembled : Message → Assembly

-- maxStoatAttachmentsPerMessage
abbrev pub max_stoat_attachments_per_message : ℕ
max_stoat_attachments_per_message = 5

-- The loop over the attachments, with the places that are left.
unfoldable pub capped : ℕ → List String → List String
capped zero urls = []
capped (suc n) [] = []
capped (suc n) (url ∷ urls) = url ∷ capped n urls

-- The rest of a text after a prefix.
unfoldable pub strip_prefix : String → String → Option String
strip_prefix String.[] s = some s
strip_prefix (String.◌∷◌ c p) String.[] = none
strip_prefix (String.◌∷◌ c p) (String.◌∷◌ d s) =
    let rest = strip_prefix p s in if nat_eq (code c) (code d) then rest else none

-- strings.Replace(s, old, "", 1)
unfoldable pub without_first : String → String → String
unfolding strip_prefix
without_first old String.[] = ""
without_first old (String.◌∷◌ c s) =
    let kept = String.◌∷◌ c (without_first old s) in
    elim (strip_prefix old (String.◌∷◌ c s)) [ some rest ↦ rest | none ↦ kept ]

-- unicode.IsSpace
unfoldable pub is_space : ℕ → Bool
is_space n =
    leb 0x9 n && leb n 0xd
    || nat_eq n 0x20
    || nat_eq n 0x85
    || nat_eq n 0xa0
    || nat_eq n 0x1680
    || leb 0x2000 n && leb n 0x200a
    || nat_eq n 0x2028
    || nat_eq n 0x2029
    || nat_eq n 0x202f
    || nat_eq n 0x205f
    || nat_eq n 0x3000

abbrev is_empty_text : String → Bool
is_empty_text String.[] = true
is_empty_text (String.◌∷◌ c s) = false

unfoldable pub trim_left : String → String
unfolding is_space
trim_left String.[] = ""
trim_left (String.◌∷◌ c s) =
    let rest = trim_left s in if is_space (code c) then rest else String.◌∷◌ c s

unfoldable pub trim_right : String → String
unfolding is_space
trim_right String.[] = ""
trim_right (String.◌∷◌ c s) =
    let rest = trim_right s in
    if is_space (code c) && is_empty_text rest then "" else String.◌∷◌ c rest

-- strings.TrimSpace
unfoldable pub trim_space : String → String
unfolding trim_left trim_right
trim_space s = trim_right (trim_left s)

-- The display fields of an author: name, avatar and colour.
pub record Display : Type 0 where
  pub name : String
  pub avatar : String
  pub colour : String

abbrev top_of : ℤ → String → Option DiscordRole → ℤ × String
top_of top colour none = (top, colour)
top_of top colour (some r) =
    if nat_eq r.color 0
    then (top, colour)
    else if ltb_ℤ top r.position
    then (r.position, colour_text r.color)
    else (top, colour)

module _ (find_role : String → Option DiscordRole) where
  -- The loop over the roles of the member: topPosition and colourHex. A role that the cache does
  -- not have is skipped.
  unfoldable pub top_colour : List String → ℤ × String → ℤ × String
  top_colour [] acc = acc
  top_colour (id ∷ ids) acc = top_colour ids (top_of acc.0 acc.1 (find_role id))

  -- authorDisplayFromDiscord
  unfoldable pub author_display : DiscordUser → Option DiscordMember → Display
  unfolding top_colour
  author_display u none = record { name = u.username; avatar = u.avatar_url; colour = "" }
  author_display u (some m) = record {
    name = if m.nick == "" then u.username else m.nick;
    avatar = u.avatar_url;
    colour = (top_colour m.roles (negsuc 0, "")).1;
  }

abbrev pub is_create : OpKind → Bool
is_create op_create = true
is_create _ = false

abbrev no_urls : List String → Bool
no_urls [] = true
no_urls (_ ∷ _) = false

-- The message that a message replies to, but not one that it forwards.
abbrev reply_of : ℕ → Option (ℕ × String) → String
reply_of default none = ""
reply_of default (some (kind, id)) = if nat_eq kind default then id else ""

abbrev nothing_to_send : OpKind → DiscordMessage → Bool
nothing_to_send kind m = m.content == "" && (not (is_create kind) || no_urls m.attachment_urls)

module _ (find_gif : String → String) where
  -- The content and the attachments of a create, of which a GIF link becomes an attachment.
  unfoldable pub gif_taken : String → List String → String × List String
  unfolding without_first trim_space
  gif_taken content refs =
      let url = find_gif content in
      if not (url == "") && ltb (length refs) max_stoat_attachments_per_message
      then (trim_space (without_first url content), refs ++ url ∷ [])
      else (content, refs)

  abbrev content_of : OpKind → String → List String → String × List String
  content_of kind content refs = if is_create kind then gif_taken content refs else (content, refs)

-- `default_reference` is discordgo's MessageReferenceTypeDefault.
module _ (default_reference : ℕ) (find_gif : String → String) where
  abbrev message_of : DiscordMessage → Display → String × List String → Message
  message_of m d (content, refs) = record {
    id = m.id;
    channel_id = m.channel_id;
    author_name = d.name;
    author_avatar_ref = d.avatar;
    author_colour = d.colour;
    content = content;
    attachment_refs = refs;
    reply_to_id = reply_of default_reference m.reference;
  }

  abbrev assemble_by :
      OpKind → (String → Option DiscordRole) → DiscordMessage → Option DiscordUser → Assembly
  assemble_by kind find_role m none = panicked
  assemble_by kind find_role m (some u) = assembled (
      message_of m (author_display find_role u m.member) (
        content_of find_gif kind m.content
          (capped max_stoat_attachments_per_message m.attachment_urls)))

  -- BuildMessageOp, up to the canonical message
  unfoldable pub assemble : OpKind → (String → Option DiscordRole) → DiscordMessage → Assembly
  assemble kind find_role m =
      if nothing_to_send kind m then skipped else assemble_by kind find_role m m.author
