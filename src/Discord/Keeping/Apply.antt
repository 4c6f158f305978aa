-- ===== src/Discord/Keeping/Apply.antt =====
-- What resolves and sends the channels, categories and messages of internal/discord, and what
-- this leaves alone.
use luars_stoatcord.Prelude.{String, Option, List, [], ◌∷◌, ◌==◌}
use luars_stoatcord.Prelude.Maps.{Map, insert}
use luars_stoatcord.Canonical.Types.{StoatOverwrite, Category, Message, StoatMessage}
use luars_stoatcord.Canonical.Emit.{message_to_stoat}
use luars_stoatcord.World.{role, channel, message, Env, World}
use luars_stoatcord.World.Exec.{pure}
use luars_stoatcord.Store.{get}
use luars_stoatcord.Stoat.Client.{Client}
use luars_stoatcord.Stoat.Server.{post, edit_post, upload_from_url, put_categories}
use luars_stoatcord.Discord.Gateway.{
  resolve_overwrite_role_ids, everyone_overwrite_role_id, resolved_as,
}
use luars_stoatcord.Discord.Categories.{
  resolve_channel_ids, resolve_categories, resend_categories, add_active, resolved_category,
}
use luars_stoatcord.Discord.Messages.{
  upload_all, resolve_reply, with_reply, with_attachments, send_new, apply_message,
  attachment_autumn_tag,
}
use luars_stoatcord.Discord.Keeping.{
  Keeps, Kept, bind-Keeps, branch-Keeps, ignore-Keeps, create_or_edit-Keeps,
}

module _ {env : Env} {c : Client} {R : World → World → Type 0} (b : Kept env c R) where
  pub resolve-Keeps :
      (guild_id : String) (m acc : Map StoatOverwrite)
      → Keeps R (resolve_overwrite_role_ids env guild_id m acc)
  unfolding resolve_overwrite_role_ids
  resolve-Keeps guild_id [] acc = b.same
  resolve-Keeps guild_id ((id, ow) ∷ rest) acc =
      branch-Keeps b (id == guild_id)
        (resolve_overwrite_role_ids env guild_id rest (insert everyone_overwrite_role_id ow acc)) _
        (resolve-Keeps guild_id rest (insert everyone_overwrite_role_id ow acc))
        (bind-Keeps b (get env role id)
          (λ m. resolve_overwrite_role_ids env guild_id rest (resolved_as m ow acc))
          (b.gets role id) (λ m. resolve-Keeps guild_id rest (resolved_as m ow acc)))

  resolve_ids-Keeps : (ids : List String) → Keeps R (resolve_channel_ids env ids)
  unfolding resolve_channel_ids
  resolve_ids-Keeps [] = b.same
  resolve_ids-Keeps (id ∷ ids) = bind-Keeps b (get env channel id) _ (b.gets channel id) (λ m.
      bind-Keeps b (resolve_channel_ids env ids) (λ rest. pure (add_active m rest))
        (resolve_ids-Keeps ids) (λ rest w. b.same w))

  resolve_categories-Keeps : (cs : List Category) → Keeps R (resolve_categories env cs)
  unfolding resolve_categories
  resolve_categories-Keeps [] = b.same
  resolve_categories-Keeps (c ∷ cs) =
      bind-Keeps b (resolve_channel_ids env c.channel_ids) _ (resolve_ids-Keeps c.channel_ids)
        (λ ids.
          bind-Keeps b (resolve_categories env cs) (λ rest. pure (resolved_category c ids ∷ rest))
            (resolve_categories-Keeps cs) (λ rest w. b.same w))

  pub resend-Keeps :
      (cs : List Category) (server : String) → Keeps R (resend_categories env cs server)
  unfolding resend_categories put_categories
  resend-Keeps cs server =
      bind-Keeps b (resolve_categories env cs) (put_categories env server)
        (resolve_categories-Keeps cs) (λ resolved. b.calls _ tt)

module _ {env : Env} {c : Client} {R : World → World → Type 0} (b : Kept env c R)
    (parent : String → Option (String × String)) where
  uploads-Keeps : (urls : List String) → Keeps R (upload_all env parent urls)
  unfolding upload_all upload_from_url
  uploads-Keeps [] = b.same
  uploads-Keeps (url ∷ urls) =
      bind-Keeps b (upload_from_url env attachment_autumn_tag url) _ (b.calls _ tt) (λ id.
        bind-Keeps b (upload_all env parent urls) (λ ids. pure (id ∷ ids)) (uploads-Keeps urls)
          (λ ids w. b.same w))

  reply-Keeps : (m : Message) (msg : StoatMessage) → Keeps R (resolve_reply env parent m msg)
  unfolding resolve_reply
  reply-Keeps m msg = branch-Keeps b (m.reply_to_id == "") (pure msg) _ b.same (
      bind-Keeps b (get env message m.reply_to_id)
        (λ mapping. pure (with_reply mapping (parent m.reply_to_id) msg))
        (b.gets message m.reply_to_id) (λ mapping w. b.same w))

  send-Keeps :
      (stoat_channel : String) (m : Message) → Keeps R (send_new env parent stoat_channel m)
  unfolding send_new post
  send-Keeps stoat_channel m =
      bind-Keeps b (upload_all env parent m.attachment_refs) _ (uploads-Keeps m.attachment_refs)
        (λ ids.
          bind-Keeps b (resolve_reply env parent m (with_attachments ids (message_to_stoat m)))
            (post env stoat_channel) (reply-Keeps m (with_attachments ids (message_to_stoat m)))
            (λ msg. b.calls _ tt))

  pub message-Keeps : (m : Message) → Keeps R (apply_message env parent m)
  unfolding apply_message edit_post
  message-Keeps m =
      bind-Keeps b (get env channel m.channel_id) _ (b.gets channel m.channel_id) (λ c.
        create_or_edit-Keeps b message m.id _ (send_new env parent c.stoat_id m)
          (λ id. ignore-Keeps b (edit_post env c.stoat_id id m.content) (b.calls _ tt))
          (send-Keeps c.stoat_id m))
