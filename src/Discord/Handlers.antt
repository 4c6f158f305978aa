-- ===== src/Discord/Handlers.antt =====
-- internal/discord/handlers.go: the ops that an event of discordgo submits, in their order. The state
-- cache at the time of the event is an argument; `none` is the dereference of a nil Author.
pub mod Routing
pub mod Layers
pub mod Built
pub mod Depending
pub mod Keeping
pub mod Reserved
pub mod Sparing
pub mod Mirroring
use luars_stoatcord.Prelude.{
  ℕ, ◌≡◌, refl, sym, ap, ap₂, ◌∙◌, String, Bool, true, false, not, ◌&&◌, ◌==◌, Option, none, some,
  List, [], ◌∷◌, ◌++◌, map, if◌then◌else◌, Bool-cases, inl, inr, arith,
}
use luars_stoatcord.Canonical.Types.{Category, Channel, Message}
use luars_stoatcord.World.{Env, role, channel, category, message}
use luars_stoatcord.Store.{is_some}
use luars_stoatcord.Stoat.Client.{Client}
use luars_stoatcord.Engine.Op.{OpKind, op_create, op_update, op_delete, DependencyKey, Op}
use luars_stoatcord.Discord.Gateway.{
  build_channel_op, build_channel_delete_op, build_role_op, build_role_delete_op,
}
use luars_stoatcord.Discord.Categories.{build_category_op, build_category_delete_op}
use luars_stoatcord.Discord.Messages.{build_message_op, build_message_delete_op}
use luars_stoatcord.Discord.Translation.{
  Constants, DiscordChannel, DiscordRole, DiscordGuild, channel_from_discord, role_from_discord,
  channel_type_from_discord,
}
use luars_stoatcord.Discord.Translation.Sidebar.{Sorter, is_category, categories_from_state}
use luars_stoatcord.Discord.Assembly.{
  DiscordUser, DiscordMessage, Assembly, skipped, panicked, assembled, assemble,
}

-- What RegisterHandlers is given, and what stands for code that is not the repository's: discordgo's
-- constants, slices.SortFunc, the GIF pattern, Discord's answer for a message that is replied to,
-- and the bot's own user id.
pub record Setup : Type 1 where
  pub constants : Constants
  pub sorter : Sorter
  pub default_reference : ℕ
  pub find_gif : String → String
  pub parent : String → Option (String × String)
  pub self_id : Option String
  pub env : Env
  pub client : Client
  pub guild_id : String
  pub server_id : String

-- The events that have a handler, each with its guild. A deleted message comes with its author, its
-- id and its channel.
pub data DiscordEvent : Type 0 where
  channel_created channel_updated channel_deleted : String → DiscordChannel → DiscordEvent
  role_created role_updated : String → DiscordRole → DiscordEvent
  role_deleted : (guild id : String) → DiscordEvent
  message_created message_updated : String → DiscordMessage → DiscordEvent
  message_deleted : String → Option DiscordUser → (id channel : String) → DiscordEvent

abbrev pub guild_of : DiscordEvent → String
guild_of (channel_created g _) = g
guild_of (channel_updated g _) = g
guild_of (channel_deleted g _) = g
guild_of (role_created g _) = g
guild_of (role_updated g _) = g
guild_of (role_deleted g _) = g
guild_of (message_created g _) = g
guild_of (message_updated g _) = g
guild_of (message_deleted g _ _ _) = g

abbrev pub role_in : List DiscordRole → String → Option DiscordRole
role_in [] id = none
role_in (r ∷ rs) id = if r.id == id then some r else role_in rs id

-- session.State.Role
abbrev pub cached_role : Option DiscordGuild → String → Option DiscordRole
cached_role none id = none
cached_role (some g) id = role_in g.roles id

abbrev same_user : Option String → Option DiscordUser → Bool
same_user none u = false
same_user (some self) none = false
same_user (some self) (some u) = u.id == self

-- isSelfAuthored
unfoldable pub is_self_authored : Option String → Option DiscordUser → Bool
is_self_authored self u = same_user self u

abbrev pub ops_of : Option Op → List Op
ops_of none = []
ops_of (some op) = op ∷ []

module _ (x : Setup) (state : Option DiscordGuild) where
  abbrev pub sidebar : List Category
  sidebar = categories_from_state x.constants x.sorter state

  -- submitCategoryOps
  unfoldable pub category_ops : List Op
  category_ops = map (λ cat. build_category_op x.env op_update cat sidebar x.server_id) sidebar

  -- The op of a channel, if it is mirrored.
  abbrev pub channel_ops : OpKind → DiscordChannel → List Op
  channel_ops kind ch = ops_of (
      build_channel_op x.env kind x.guild_id x.server_id x.client
        (channel_from_discord x.constants ch))

  -- handleChannelChange
  unfoldable pub channel_change : OpKind → DiscordChannel → List Op
  channel_change kind ch =
      if is_category x.constants ch then category_ops else channel_ops kind ch ++ category_ops

  abbrev pub deletion_op : DiscordChannel → Op
  deletion_op ch =
      if is_category x.constants ch
      then build_category_delete_op x.env ch.id sidebar x.server_id
      else build_channel_delete_op x.env x.client ch.id

  abbrev pub role_op : OpKind → DiscordRole → Op
  role_op kind r = build_role_op x.env kind x.server_id x.client (role_from_discord x.constants r)

  abbrev pub message_ops : OpKind → Assembly → Option (List Op)
  message_ops kind skipped = some []
  message_ops kind panicked = none
  message_ops kind (assembled m) = some (build_message_op x.env x.parent kind m ∷ [])

  abbrev pub message_event : OpKind → DiscordMessage → Option (List Op)
  message_event kind m =
      if is_self_authored x.self_id m.author
      then some []
      else message_ops kind (assemble x.default_reference x.find_gif kind (cached_role state) m)

  abbrev pub delete_message_ops : Option DiscordUser → String → String → Option (List Op)
  delete_message_ops author id channel_id =
      if is_self_authored x.self_id author
      then some []
      else some (build_message_delete_op x.env x.parent id channel_id ∷ [])

  -- The handler of an event of the mirrored guild.
  unfoldable pub handle_own : DiscordEvent → Option (List Op)
  handle_own (channel_created g ch) = some (channel_change op_create ch)
  handle_own (channel_updated g ch) = some (channel_change op_update ch)
  handle_own (channel_deleted g ch) = some (deletion_op ch ∷ category_ops)
  handle_own (role_created g r) = some (role_op op_create r ∷ [])
  handle_own (role_updated g r) = some (role_op op_update r ∷ [])
  handle_own (role_deleted g id) = some (build_role_delete_op x.env x.client x.server_id id ∷ [])
  handle_own (message_created g m) = message_event op_create m
  handle_own (message_updated g m) = message_event op_update m
  handle_own (message_deleted g author id channel_id) = delete_message_ops author id channel_id

  -- RegisterHandlers: each handler leaves out the events of other guilds.
  unfoldable pub handle : DiscordEvent → Option (List Op)
  handle e = if guild_of e == x.guild_id then handle_own e else some []

  unfoldable pub converge_channels : List DiscordChannel → List Op
  converge_channels [] = []
  converge_channels (ch ∷ chs) = channel_ops op_update ch ++ converge_channels chs

  abbrev converge_guild : Option DiscordGuild → List Op
  converge_guild none = []
  converge_guild (some g) =
      map (role_op op_update) g.roles ++ (converge_channels g.channels ++ category_ops)

  -- ConvergeAll
  unfoldable pub converge_all : List Op
  converge_all = converge_guild state
