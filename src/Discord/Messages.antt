-- ===== src/Discord/Messages.antt =====
-- The ops of internal/discord/message.go, of the canonical message that BuildMessageOp assembles.
-- `parent` is what Discord returns for a message that is replied to: its author's name and content.
use Prim.Native.String.{◌++◌ as concat}
use luars_stoatcord.Prelude.{
  ℕ, zero, suc, String, ◌≡◌, refl, Bool, ◌&&◌, not, Option, none, some, List, [], ◌∷◌, ◌==◌,
  if◌then◌else◌,
}
use luars_stoatcord.Canonical.Result.{Result, ok}
use luars_stoatcord.Canonical.Json.{Json, raw}
use luars_stoatcord.Canonical.Types.{Message, StoatMessage}
use luars_stoatcord.Canonical.Emit.{message_to_stoat}
use luars_stoatcord.Canonical.State.{message_json, parse_message}
use luars_stoatcord.Canonical.State.RoundTrip.{parse_message-message_json}
use luars_stoatcord.World.{channel, message, Env, World}
use luars_stoatcord.World.Exec.{Exec, pure, ◌>>=◌}
use luars_stoatcord.Store.{Mapping, get}
use luars_stoatcord.Engine.Op.{OpKind, op_delete, Op}
use luars_stoatcord.Stoat.Server.{post, edit_post, delete_post, upload_from_url}
use luars_stoatcord.Discord.Gateway.{apply_create_or_edit, apply_delete, with_error, ignore}

-- maxQuotedReplyLen
abbrev pub max_quoted_reply_len : ℕ
max_quoted_reply_len = 150

-- The first runes of a text, with an ellipsis if there are more.
unfoldable pub snippet : ℕ → String → String
snippet zero String.[] = ""
snippet zero (String.◌∷◌ c s) = "…"
snippet (suc n) String.[] = ""
snippet (suc n) (String.◌∷◌ c s) = String.◌∷◌ c (snippet n s)

unfoldable pub quote_unmapped_reply : Option (String × String) → String → String
quote_unmapped_reply none content = content
quote_unmapped_reply (some (author, quoted)) content =
    if quoted == ""
    then content
    else concat "> **" (
        concat author
          (concat "**: " (concat (snippet max_quoted_reply_len quoted) (concat "\n\n" content))))

-- Only the content is compared.
unfoldable pub message_diff : Message → Json → Result Bool
message_diff m stored = with_error (parse_message stored) λ s. s.content == m.content

-- An edited message is pushed again exactly when its content differs from the one that was stored,
-- whatever else of it has changed.
pub message_diff-message_json :
    (m stored : Message) → message_diff m (message_json stored) ≡ ok (stored.content == m.content)
unfolding message_diff
message_diff-message_json m stored = rw (parse_message-message_json stored) refl

-- attachmentAutumnTag
abbrev pub attachment_autumn_tag : String
attachment_autumn_tag = "attachments"

abbrev pub with_attachments : List String → StoatMessage → StoatMessage
with_attachments [] msg = msg
with_attachments ids msg = record msg { attachments = ids }

abbrev pub with_reply : Mapping → Option (String × String) → StoatMessage → StoatMessage
with_reply m parent msg =
    if m.found && not (m.stoat_id == "")
    then record msg { reply_to_stoat_id = m.stoat_id }
    else record msg { content = quote_unmapped_reply parent msg.content }

module _ (env : Env) (parent : String → Option (String × String)) where
  unfoldable pub upload_all : List String → Exec World (List String)
  upload_all [] = pure []
  upload_all (url ∷ urls) = do
    id ← upload_from_url env attachment_autumn_tag url
    ids ← upload_all urls
    pure (id ∷ ids)

  unfoldable pub resolve_reply : Message → StoatMessage → Exec World StoatMessage
  resolve_reply m msg = if m.reply_to_id == "" then pure msg else do
    mapping ← get env message m.reply_to_id
    pure (with_reply mapping (parent m.reply_to_id) msg)

  unfoldable pub send_new : String → Message → Exec World String
  send_new stoat_channel m = do
    ids ← upload_all m.attachment_refs
    msg ← resolve_reply m (with_attachments ids (message_to_stoat m))
    post env stoat_channel msg

  unfoldable pub apply_message : Message → Exec World String
  apply_message m = do
    channel_mapping ← get env channel m.channel_id
    apply_create_or_edit env message m.id
        (λ id. ignore (edit_post env channel_mapping.stoat_id id m.content))
        (send_new channel_mapping.stoat_id m)

  -- BuildMessageOp, of the message that it assembles
  unfoldable pub build_message_op : OpKind → Message → Op
  build_message_op kind m = record {
    kind = kind;
    entity = message;
    discord_id = m.id;
    channel_id = m.channel_id;
    canonical_state = message_json m;
    depends_on = (record { entity = channel; discord_id = m.channel_id }) ∷ [];
    diff = some (message_diff m);
    apply = apply_message m;
  }

  unfoldable pub build_message_delete_op : String → String → Op
  build_message_delete_op k channel_id = record {
    kind = op_delete;
    entity = message;
    discord_id = k;
    channel_id = channel_id;
    canonical_state = raw "";
    depends_on = [];
    diff = none;
    apply = (do
      channel_mapping ← get env channel channel_id
      apply_delete env message k (λ id. ignore (delete_post env channel_mapping.stoat_id id)));
  }
