-- ===== src/Discord/Handlers/Built.antt =====
-- What holds of each op that the builders of internal/discord make holds of whatever the handlers of
-- internal/discord/handlers.go submit.

use luars_stoatcord.Canonical.Types.{Role, Category, Channel, Message}
use luars_stoatcord.Engine.Op.{OpKind, op_create, op_update, Op}
use luars_stoatcord.Discord.Gateway.{
  build_channel_op, build_channel_delete_op, build_role_op, build_role_delete_op,
}
use luars_stoatcord.Discord.Categories.{build_category_op, build_category_delete_op}
use luars_stoatcord.Discord.Messages.{build_message_op, build_message_delete_op}
use mathlib.Core.Option.{some-injective}
use luars_stoatcord.Discord.Translation.{
  DiscordChannel, DiscordRole, DiscordGuild, channel_from_discord, role_from_discord,
}
use luars_stoatcord.Discord.Translation.Sidebar.{is_category}
use luars_stoatcord.Discord.Assembly.{
  DiscordUser, DiscordMessage, Assembly, skipped, panicked, assembled,
}
use luars_stoatcord.Discord.Handlers.{
  Setup, DiscordEvent, channel_created, channel_updated, channel_deleted, role_created,
  role_updated, role_deleted, message_created, message_updated, message_deleted, guild_of, ops_of,
  sidebar, category_ops, channel_ops, channel_change, deletion_op, role_op, message_ops,
  message_event, delete_message_ops, is_self_authored, handle_own, handle, converge_channels,
  converge_all,
}
use luars_stoatcord.Prelude.{
  ◌≡◌, subst, String, ◌==◌, Option, none, some, List, [], ◌∷◌, ◌++◌, map, All, Bool-cases, inl, inr,
  arith,
}

All-append : (P : Op → Type 0) (xs ys : List Op) → All P xs → All P ys → All P (xs ++ ys)
All-append P [] ys h k = k
All-append P (x ∷ xs) ys (h, hs) k = (h, All-append P xs ys hs k)

All-map {ℓ} :
    {A : Type ℓ} (P : Op → Type 0) (f : A → Op) (xs : List A)
    → ((a : A) → P (f a))
    → All P (map f xs)
All-map P f [] h = tt
All-map P f (x ∷ xs) h = (h x, All-map P f xs h)

unsome {ℓ} : {A : Type ℓ} {a b : A} → some a ≡ some b → a ≡ b
unsome e = some-injective _ _ e

-- `P` holds of each op that a builder makes.
pub record Built (x : Setup) (P : Op → Type 0) : Type 0 where
  pub channels :
      (kind : OpKind) (ch : Option Channel)
      → All P (ops_of (build_channel_op x.env kind x.guild_id x.server_id x.client ch))
  pub categories :
      (cat : Category) (all : List Category)
      → P (build_category_op x.env op_update cat all x.server_id)
  pub roles : (kind : OpKind) (r : Role) → P (build_role_op x.env kind x.server_id x.client r)
  pub messages : (kind : OpKind) (m : Message) → P (build_message_op x.env x.parent kind m)
  pub channel_deletes : (id : String) → P (build_channel_delete_op x.env x.client id)
  pub category_deletes :
      (id : String) (all : List Category) → P (build_category_delete_op x.env id all x.server_id)
  pub role_deletes : (id : String) → P (build_role_delete_op x.env x.client x.server_id id)
  pub message_deletes :
      (id channel_id : String) → P (build_message_delete_op x.env x.parent id channel_id)

module _ (x : Setup) (P : Op → Type 0) (b : Built x P) (state : Option DiscordGuild) where
  categories-All : All P (category_ops x state)
  unfolding category_ops
  categories-All = All-map P _ (sidebar x state) (λ cat. b.categories cat (sidebar x state))

  role-All : (kind : OpKind) (r : DiscordRole) → P (role_op x state kind r)
  role-All kind r = b.roles kind (role_from_discord x.constants r)

  change-All : (kind : OpKind) (ch : DiscordChannel) → All P (channel_change x state kind ch)
  unfolding channel_change
  change-All kind ch = elim (Bool-cases (is_category x.constants ch)) [
    | inl e ↦ rw e categories-All
    | inr e ↦ rw e (
        All-append P
          (ops_of (
            build_channel_op x.env kind x.guild_id x.server_id x.client
              (channel_from_discord x.constants ch)))
          (category_ops x state) (b.channels kind (channel_from_discord x.constants ch))
          categories-All)
  ]

  deletion-All : (ch : DiscordChannel) → P (deletion_op x state ch)
  deletion-All ch = elim (Bool-cases (is_category x.constants ch)) [
    | inl e ↦ rw e (b.category_deletes ch.id (sidebar x state))
    | inr e ↦ rw e (b.channel_deletes ch.id)
  ]

  assembly-All :
      (kind : OpKind) (a : Assembly) (ops : List Op)
      → message_ops x state kind a ≡ some ops
      → All P ops
  assembly-All kind skipped ops e = subst (All P) (unsome e) tt
  assembly-All kind panicked ops e = ground arith
  assembly-All kind (assembled r) ops e = subst (All P) (unsome e) (b.messages kind r, tt)

  event-All :
      (kind : OpKind) (m : DiscordMessage) (ops : List Op)
      → message_event x state kind m ≡ some ops
      → All P ops
  event-All kind m ops e = elim (Bool-cases (is_self_authored x.self_id m.author)) [
    | inl self ↦ subst (All P) (unsome (rw self at e)) tt
    | inr other ↦ assembly-All kind _ ops (rw other at e)
  ]

  deleted-All :
      (author : Option DiscordUser) (id channel_id : String) (ops : List Op)
      → delete_message_ops x state author id channel_id ≡ some ops
      → All P ops
  deleted-All author id channel_id ops e = elim (Bool-cases (is_self_authored x.self_id author)) [
    | inl self ↦ subst (All P) (unsome (rw self at e)) tt
    | inr other ↦ subst (All P) (unsome (rw other at e)) (b.message_deletes id channel_id, tt)
  ]

  own-All : (event : DiscordEvent) (ops : List Op) → handle_own x state event ≡ some ops → All P ops
  unfolding handle_own
  own-All (channel_created g ch) ops e = subst (All P) (unsome e) (change-All op_create ch)
  own-All (channel_updated g ch) ops e = subst (All P) (unsome e) (change-All op_update ch)
  own-All (channel_deleted g ch) ops e = subst (All P) (unsome e) (deletion-All ch, categories-All)
  own-All (role_created g r) ops e = subst (All P) (unsome e) (role-All op_create r, tt)
  own-All (role_updated g r) ops e = subst (All P) (unsome e) (role-All op_update r, tt)
  own-All (role_deleted g id) ops e = subst (All P) (unsome e) (b.role_deletes id, tt)
  own-All (message_created g m) ops e = event-All op_create m ops e
  own-All (message_updated g m) ops e = event-All op_update m ops e
  own-All (message_deleted g author id channel_id) ops e = deleted-All author id channel_id ops e

  pub handle-All :
      (event : DiscordEvent) (ops : List Op) → handle x state event ≡ some ops → All P ops
  unfolding handle
  handle-All event ops e = elim (Bool-cases (guild_of event == x.guild_id)) [
    | inl own ↦ own-All event ops (rw own at e)
    | inr foreign ↦ subst (All P) (unsome (rw foreign at e)) tt
  ]

  channels-All : (chs : List DiscordChannel) → All P (converge_channels x state chs)
  unfolding converge_channels
  channels-All [] = tt
  channels-All (ch ∷ chs) =
      All-append P (channel_ops x state op_update ch) (converge_channels x state chs)
        (b.channels op_update (channel_from_discord x.constants ch)) (channels-All chs)

  roles-All : (rs : List DiscordRole) → All P (map (role_op x state op_update) rs)
  roles-All rs = All-map P (role_op x state op_update) rs (role-All op_update)

pub converge_all-All :
    (x : Setup) (P : Op → Type 0) (b : Built x P) (state : Option DiscordGuild)
    → All P (converge_all x state)
unfolding converge_all
converge_all-All x P b none = tt
converge_all-All x P b (some g) =
    All-append P (map (role_op x (some g) op_update) g.roles)
      (converge_channels x (some g) g.channels ++ category_ops x (some g))
      (roles-All x P b (some g) g.roles)
      (All-append P (converge_channels x (some g) g.channels) (category_ops x (some g))
        (channels-All x P b (some g) g.channels) (categories-All x P b (some g)))
