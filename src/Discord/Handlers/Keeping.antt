-- ===== src/Discord/Handlers/Keeping.antt =====
-- What the Apply functions of the ops that internal/discord builds leave alone.
use luars_stoatcord.Prelude.{String, Option, none, some, List, [], All}
use luars_stoatcord.Canonical.Types.{Role, Channel, Category, Message}
use luars_stoatcord.Canonical.Emit.{role_to_stoat, channel_to_stoat}
use luars_stoatcord.World.{role, channel, message, Env, World}
use luars_stoatcord.World.Exec.{pure}
use luars_stoatcord.Store.{get}
use luars_stoatcord.Engine.Op.{OpKind, op_update, Op}
use luars_stoatcord.Stoat.Client.{Client}
use luars_stoatcord.Stoat.Role
use luars_stoatcord.Stoat.Channel
use luars_stoatcord.Stoat.Server.{delete_post}
use luars_stoatcord.Discord.Gateway.{
  resolve_overwrite_role_ids, apply_channel, ignore, build_channel_op, build_channel_delete_op,
  build_role_op, build_role_delete_op,
}
use luars_stoatcord.Discord.Categories.{
  resend_categories, build_category_op, build_category_delete_op,
}
use luars_stoatcord.Discord.Messages.{build_message_op, build_message_delete_op}
use luars_stoatcord.Discord.Keeping.{
  Keeps, Kept, bind-Keeps, then-Keeps, ignore-Keeps, create_or_edit-Keeps, delete-Keeps,
  role_create-Keeps, channel_create-Keeps, channel_edit-Keeps,
}
use luars_stoatcord.Discord.Handlers.{Setup, ops_of}
use luars_stoatcord.Discord.Handlers.Built.{Built}
use luars_stoatcord.Discord.Keeping.Apply.{resolve-Keeps, resend-Keeps, message-Keeps}

module _ {env : Env} {c : Client} {R : World → World → Type 0} (b : Kept env c R) where
  pub build_role_op-Keeps :
      (server : String) (r : Role) (kind : OpKind)
      → Keeps R (build_role_op env kind server c r).apply
  unfolding build_role_op
  build_role_op-Keeps server r kind =
      create_or_edit-Keeps b role r.id _ (Role.create env c server (role_to_stoat r))
        (λ id.
          ignore-Keeps b (Role.edit env c server id (role_to_stoat r))
            (b.edits server id (role_to_stoat r)))
        (role_create-Keeps b server (role_to_stoat r))

module _ (x : Setup) {R : World → World → Type 0} (b : Kept x.env x.client R) where
  -- What Apply of an op does to the world.
  abbrev Applies : Op → Type 0
  Applies op = Keeps R op.apply

  channel-Applies :
      (kind : OpKind) (ch : Option Channel)
      → All Applies (ops_of (build_channel_op x.env kind x.guild_id x.server_id x.client ch))
  unfolding build_channel_op apply_channel
  channel-Applies kind none = tt
  channel-Applies kind (some ch) = (
    bind-Keeps b (resolve_overwrite_role_ids x.env x.guild_id (channel_to_stoat ch).overwrites []) _
        (resolve-Keeps b x.guild_id (channel_to_stoat ch).overwrites [])
        (λ resolved.
          let out = record (channel_to_stoat ch) { overwrites = resolved } in
          create_or_edit-Keeps b channel ch.id (λ id. Channel.edit x.env x.client id out)
            (Channel.create x.env x.client x.server_id out) (λ id. channel_edit-Keeps b id out)
            (channel_create-Keeps b x.server_id out)),
    tt,
  )

  category-Applies :
      (cat : Category) (all : List Category)
      → Applies (build_category_op x.env op_update cat all x.server_id)
  unfolding build_category_op
  category-Applies cat all =
      then-Keeps b (resend_categories x.env all x.server_id) (pure cat.id)
        (resend-Keeps b all x.server_id) b.same

  category_delete-Applies :
      (id : String) (all : List Category)
      → Applies (build_category_delete_op x.env id all x.server_id)
  unfolding build_category_delete_op
  category_delete-Applies id all =
      then-Keeps b (resend_categories x.env all x.server_id) (pure "")
        (resend-Keeps b all x.server_id) b.same

  message_delete-Applies :
      (id channel_id : String) → Applies (build_message_delete_op x.env x.parent id channel_id)
  unfolding build_message_delete_op delete_post
  message_delete-Applies id channel_id =
      bind-Keeps b (get x.env channel channel_id) _ (b.gets channel channel_id) (λ c.
        delete-Keeps b message id (λ k. ignore (delete_post x.env c.stoat_id k))
          (λ k. ignore-Keeps b (delete_post x.env c.stoat_id k) (b.calls _ tt)))

  channel_delete-Applies : (id : String) → Applies (build_channel_delete_op x.env x.client id)
  unfolding build_channel_delete_op Channel.delete
  channel_delete-Applies id =
      delete-Keeps b channel id (λ k. ignore (Channel.delete x.env x.client k))
        (λ k. ignore-Keeps b (Channel.delete x.env x.client k) (b.calls _ tt))

  role_delete-Applies : (id : String) → Applies (build_role_delete_op x.env x.client x.server_id id)
  unfolding build_role_delete_op
  role_delete-Applies id =
      delete-Keeps b role id (λ k. ignore (Role.delete x.env x.client x.server_id k))
        (λ k. ignore-Keeps b (Role.delete x.env x.client x.server_id k) (b.deletes x.server_id k))

  message-Applies : (kind : OpKind) (m : Message) → Applies (build_message_op x.env x.parent kind m)
  unfolding build_message_op
  message-Applies kind m = message-Keeps b x.parent m

  pub ops-Applies : Built x Applies
  ops-Applies = record {
    channels = channel-Applies;
    categories = category-Applies;
    roles = λ kind r. build_role_op-Keeps b x.server_id r kind;
    messages = message-Applies;
    channel_deletes = channel_delete-Applies;
    category_deletes = category_delete-Applies;
    role_deletes = role_delete-Applies;
    message_deletes = message_delete-Applies;
  }
