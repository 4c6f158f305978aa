-- ===== src/Discord/Handlers/Depending.antt =====
-- The ops of internal/discord/handlers.go stand in the layers of the engine's workers.
use Prim.Native.String.{◌++◌ as concat}
use luars_stoatcord.Canonical.Types.{Category, Channel, Message}
use luars_stoatcord.Engine.Op.{OpKind, op_update, Op, worker_key}
use luars_stoatcord.Engine.Scheduling.Placement.{Layered}
use luars_stoatcord.Discord.Gateway.{
  build_channel_op, build_channel_delete_op, build_role_op, build_role_delete_op,
}
use luars_stoatcord.Discord.Categories.{build_category_op, build_category_delete_op}
use luars_stoatcord.Discord.Messages.{build_message_op, build_message_delete_op}
use luars_stoatcord.Discord.Handlers.{Setup, ops_of}
use luars_stoatcord.Prelude.{◌≡◌, ◌==◌, Option, none, some, List, All, Bool-cases, inl, inr, arith}
use luars_stoatcord.Discord.Handlers.Built.{Built}
use luars_stoatcord.Discord.Handlers.Layers.{
  key_height, roles-Below, channel-Below, channels-Below, channel-height, category-height,
  message-height, channel_messages-height,
}

abbrev pub InLayers : Op → Type 0
InLayers op = Layered key_height op

module _ (x : Setup) where
  channel-InLayers :
      (kind : OpKind) (ch : Option Channel)
      → All InLayers (ops_of (build_channel_op x.env kind x.guild_id x.server_id x.client ch))
  unfolding build_channel_op worker_key
  channel-InLayers kind none = tt
  channel-InLayers kind (some ch) =
      let k = concat "channel" (concat ":" ch.id) in
      (roles-Below k ch.overwrites (rw (channel-height (concat ":" ch.id)) (omega arith)), tt)

  category-InLayers :
      (cat : Category) (all : List Category)
      → InLayers (build_category_op x.env op_update cat all x.server_id)
  unfolding build_category_op worker_key
  category-InLayers cat all =
      let k = concat "category" (concat ":" cat.id) in
      channels-Below k cat.channel_ids (rw (category-height (concat ":" cat.id)) (omega arith))

  message-high :
      (kind : OpKind) (m : Message)
      → key_height (worker_key (build_message_op x.env x.parent kind m)) ≡ 2
  unfolding build_message_op worker_key
  message-high kind m = elim (Bool-cases (m.channel_id == "")) [
    | inl e ↦ rw e (message-height (concat ":" m.id))
    | inr e ↦ rw e (channel_messages-height m.channel_id)
  ]

  message-InLayers :
      (kind : OpKind) (m : Message) → InLayers (build_message_op x.env x.parent kind m)
  unfolding build_message_op
  message-InLayers kind m = (
    channel-Below (worker_key (build_message_op x.env x.parent kind m)) m.channel_id
        (rw (message-high kind m) (omega arith)),
    tt,
  )

  pub ops-InLayers : Built x InLayers
  unfolding build_role_op build_channel_delete_op build_category_delete_op build_role_delete_op
      build_message_delete_op
  ops-InLayers = record {
    channels = channel-InLayers;
    categories = category-InLayers;
    roles = λ kind r. tt;
    messages = message-InLayers;
    channel_deletes = λ id. tt;
    category_deletes = λ id all. tt;
    role_deletes = λ id. tt;
    message_deletes = λ id c. tt;
  }
