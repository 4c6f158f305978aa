-- ===== src/Discord/Handlers/Routing.antt =====
-- Which ops internal/discord/handlers.go submits, and to which worker of the engine they go.
use Prim.Native.String.{◌++◌ as concat}
use luars_stoatcord.Prelude.{
  ◌≡◌, refl, ap, ap₂, subst, ◌∙◌, String, Bool, false, ◌==◌, Option, none, some, List, [], ◌∷◌,
  ◌++◌, map, All, select, Bool-cases, Option-cases, inl, inr, arith,
}
use mathlib.Core.List.{map-append}
use mathlib.Core.Option.{some-injective}
use luars_stoatcord.Canonical.Types.{Category, Message}
use luars_stoatcord.World.{EntityType, role, channel, category}
use luars_stoatcord.Store.{is_some}
use luars_stoatcord.Engine.Op.{OpKind, op_create, op_update, Op, worker_key}
use luars_stoatcord.Discord.Gateway.{build_channel_op, build_role_op}
use luars_stoatcord.Discord.Categories.{build_category_op}
use luars_stoatcord.Discord.Messages.{build_message_op, build_message_delete_op}
use luars_stoatcord.Discord.Translation.{
  DiscordChannel, DiscordRole, DiscordGuild, channel_type_from_discord, channel_from_discord,
  role_from_discord,
}
use luars_stoatcord.Discord.Assembly.{
  DiscordUser, DiscordMessage, Assembly, skipped, panicked, assembled, assemble,
}
use luars_stoatcord.Discord.Handlers.{
  Setup, DiscordEvent, channel_created, message_created, message_updated, message_deleted, guild_of,
  sidebar, category_ops, role_op, handle, handle_own, converge_all, converge_channels, message_ops,
  message_event, delete_message_ops, is_self_authored, cached_role,
}

-- What an op does, to which entity.
abbrev pub Summary : Type 0
Summary = OpKind × EntityType × String

abbrev pub summary : Op → Summary
summary op = (op.kind, op.entity, op.discord_id)

abbrev pub is_mirrored : Setup → DiscordChannel → Bool
is_mirrored x ch = is_some (channel_type_from_discord x.constants ch.kind)

abbrev pub updates_channel : DiscordChannel → Summary
updates_channel ch = (op_update, channel, ch.id)

abbrev pub updates_role : DiscordRole → Summary
updates_role r = (op_update, role, r.id)

abbrev pub updates_category : Category → Summary
updates_category cat = (op_update, category, cat.id)

module _ (x : Setup) (g : DiscordGuild) where
  channel_ops-summary :
      (chs : List DiscordChannel)
      → map summary (converge_channels x (some g) chs)
        ≡ map updates_channel (select (is_mirrored x) chs)
  unfolding converge_channels channel_from_discord build_channel_op
  channel_ops-summary [] = refl
  channel_ops-summary (ch ∷ chs) =
      elim (Option-cases (channel_type_from_discord x.constants ch.kind)) [
        | inl e ↦ rw e (channel_ops-summary chs)
        | inr (t, e) ↦ rw e (ap (λ rest. updates_channel ch ∷ rest) (channel_ops-summary chs))
      ]

  roles-summary :
      (rs : List DiscordRole)
      → map summary (map (role_op x (some g) op_update) rs) ≡ map updates_role rs
  unfolding build_role_op role_from_discord
  roles-summary [] = refl
  roles-summary (r ∷ rs) = ap (λ rest. updates_role r ∷ rest) (roles-summary rs)

  categories-summary :
      (cats all : List Category)
      → map summary (map (λ cat. build_category_op x.env op_update cat all x.server_id) cats)
        ≡ map updates_category cats
  unfolding build_category_op
  categories-summary [] all = refl
  categories-summary (cat ∷ cats) all =
      ap (λ rest. updates_category cat ∷ rest) (categories-summary cats all)

  -- ConvergeAll submits an update of every role, of every mirrored channel and of every category of
  -- the guild, in this order, and nothing else.
  pub converge_all_lem :
      map summary (converge_all x (some g))
      ≡ map updates_role g.roles
        ++ (map updates_channel (select (is_mirrored x) g.channels)
            ++ map updates_category (sidebar x (some g)))
  unfolding converge_all category_ops
  converge_all_lem =
      map-append summary (map (role_op x (some g) op_update) g.roles) _
      ∙ ap₂ ◌++◌ (roles-summary g.roles) (
          map-append summary (converge_channels x (some g) g.channels) _
          ∙ ap₂ ◌++◌ (channel_ops-summary g.channels)
              (categories-summary (sidebar x (some g)) (sidebar x (some g))))

-- The channel of a message event.
abbrev pub message_channel : DiscordEvent → Option String
message_channel (message_created g m) = some m.channel_id
message_channel (message_updated g m) = some m.channel_id
message_channel (message_deleted g author id channel_id) = some channel_id
message_channel _ = none

unsome {ℓ} : {A : Type ℓ} {a b : A} → some a ≡ some b → a ≡ b
unsome e = some-injective _ _ e

-- The worker of the messages of a channel.
abbrev pub ToChannel : String → Op → Type 0
ToChannel channel_id op = worker_key op ≡ concat "message:" channel_id

assemble-channel_id :
    (x : Setup) (kind : OpKind) (find_role : String → Option DiscordRole) (m : DiscordMessage)
    → (r : Message) → assemble x.default_reference x.find_gif kind find_role m ≡ assembled r
    → r.channel_id ≡ m.channel_id
unfolding assemble
assemble-channel_id x kind find_role m r h = ground arith

module _ (x : Setup) (state : Option DiscordGuild) where
  deletion-ToChannel :
      (id channel_id : String)
      → (channel_id == "") ≡ false
      → ToChannel channel_id (build_message_delete_op x.env x.parent id channel_id)
  unfolding build_message_delete_op worker_key
  deletion-ToChannel id channel_id h = rw h refl

  message-ToChannel :
      (kind : OpKind) (m : Message)
      → (m.channel_id == "") ≡ false
      → ToChannel m.channel_id (build_message_op x.env x.parent kind m)
  unfolding build_message_op worker_key
  message-ToChannel kind m h = rw h refl

  assembly-ToChannel :
      (kind : OpKind) (a : Assembly) (channel_id : String) (ops : List Op)
      → ((r : Message) → a ≡ assembled r → r.channel_id ≡ channel_id)
      → (channel_id == "") ≡ false
      → message_ops x state kind a ≡ some ops
      → All (ToChannel channel_id) ops
  assembly-ToChannel kind skipped channel_id [] same h e = tt
  assembly-ToChannel kind skipped channel_id (op ∷ ops) same h e = ground arith
  assembly-ToChannel kind panicked channel_id ops same h e = ground arith
  assembly-ToChannel kind (assembled r) channel_id ops same h e =
      subst (All (ToChannel channel_id)) (unsome e) (
        subst (λ k. ToChannel k (build_message_op x.env x.parent kind r)) (same r refl)
            (message-ToChannel kind r (rw (same r refl) h)),
        tt,
      )

  event-ToChannel :
      (kind : OpKind) (m : DiscordMessage) (ops : List Op)
      → (m.channel_id == "") ≡ false
      → message_event x state kind m ≡ some ops
      → All (ToChannel m.channel_id) ops
  event-ToChannel kind m ops h e = elim (Bool-cases (is_self_authored x.self_id m.author)) [
    | inl self ↦ subst (All (ToChannel m.channel_id)) (unsome (rw self at e)) tt
    | inr other ↦
        assembly-ToChannel kind _ m.channel_id ops
          (assemble-channel_id x kind (cached_role state) m) h (rw other at e)
  ]

  deleted-ToChannel :
      (author : Option DiscordUser) (id channel_id : String) (ops : List Op)
      → (channel_id == "") ≡ false
      → delete_message_ops x state author id channel_id ≡ some ops
      → All (ToChannel channel_id) ops
  deleted-ToChannel author id channel_id ops h e =
      elim (Bool-cases (is_self_authored x.self_id author)) [
        | inl self ↦ subst (All (ToChannel channel_id)) (unsome (rw self at e)) tt
        | inr other ↦
            subst (All (ToChannel channel_id)) (unsome (rw other at e))
              (deletion-ToChannel id channel_id h, tt)
      ]

  own-ToChannel :
      (event : DiscordEvent) (channel_id : String) (ops : List Op)
      → message_channel event ≡ some channel_id
      → (channel_id == "") ≡ false
      → handle_own x state event ≡ some ops
      → All (ToChannel channel_id) ops
  unfolding handle_own
  own-ToChannel (channel_created g ch) k ops c h e = ground arith
  own-ToChannel (message_created g m) k ops c h e =
      let same = unsome c in
      subst (λ i. All (ToChannel i) ops) same (event-ToChannel op_create m ops (rw same h) e)
  own-ToChannel (message_updated g m) k ops c h e =
      let same = unsome c in
      subst (λ i. All (ToChannel i) ops) same (event-ToChannel op_update m ops (rw same h) e)
  own-ToChannel (message_deleted g author id j) k ops c h e =
      let same = unsome c in
      subst (λ i. All (ToChannel i) ops) same (deleted-ToChannel author id j ops (rw same h) e)
  own-ToChannel _ k ops c h e = absurd (ground arith)

  -- Whatever a message event of a channel submits, a create, an edit or a delete, goes to the one
  -- worker of that channel's messages, provided that the channel's id is not empty and the handler
  -- does not panic.
  pub handle-ToChannel :
      (event : DiscordEvent) (channel_id : String) (ops : List Op)
      → message_channel event ≡ some channel_id
      → (channel_id == "") ≡ false
      → handle x state event ≡ some ops
      → All (ToChannel channel_id) ops
  unfolding handle
  handle-ToChannel event channel_id ops c h e = elim (Bool-cases (guild_of event == x.guild_id)) [
    | inl own ↦ own-ToChannel event channel_id ops c h (rw own at e)
    | inr foreign ↦ subst (All (ToChannel channel_id)) (unsome (rw foreign at e)) tt
  ]
