-- ===== src/Examples/Guild.antt =====
-- A small guild as discordgo's cache has it, with the constants that discordgo documents.
use mathlib.Core.List.{Permᴰ}
use luars_stoatcord.Prelude.{
  ℕ, ◌<◌, ◌↔◌, String, ◌≡◌, refl, true, false, none, some, List, [], ◌∷◌, All, select,
}
use luars_stoatcord.Prelude.Int.{pos}
use luars_stoatcord.Prelude.Bits.{digit}
use luars_stoatcord.Canonical.Permission.{mask}
use luars_stoatcord.Engine.Op.{op_create}
use luars_stoatcord.World.{Env, RoleInfo}
use luars_stoatcord.Canonical.Result.{ok}
use luars_stoatcord.Discord.Translation.{
  Constants, DiscordChannel, DiscordRole, DiscordGuild, permissions_from_bits,
}
use luars_stoatcord.Discord.Translation.Bits.{Carries, mask-permissions_from_bits}
use luars_stoatcord.Discord.Translation.Sidebar.{categories_of, Sorted, is_category}
use luars_stoatcord.Discord.Translation.Order.{placed, categories_of_lem}
use luars_stoatcord.Discord.Assembly.{DiscordUser, DiscordMessage, assemble}
use luars_stoatcord.Discord.Assembly.Sending.{Sendable, assemble-Sendable}
use luars_stoatcord.Discord.Handlers.{
  Setup, DiscordEvent, message_deleted, handle, handle_own, is_self_authored,
}
use luars_stoatcord.Discord.Messages.{build_message_delete_op}
use luars_stoatcord.Discord.Handlers.Routing.{ToChannel, handle-ToChannel}
use luars_stoatcord.Examples.{env, client}
use luars_stoatcord.Examples.Sorting.{insertion_sort}

abbrev constants : Constants
constants = record {
  guild_text = 0;
  guild_news = 5;
  guild_forum = 15;
  guild_voice = 2;
  guild_stage_voice = 13;
  guild_category = 4;
  overwrite_member = 1;
  permission_view_channel = 0x400;
  permission_read_message_history = 0x10000;
  permission_send_messages = 0x800;
  permission_manage_messages = 0x2000;
  permission_embed_links = 0x4000;
  permission_attach_files = 0x8000;
  permission_add_reactions = 0x40;
  permission_manage_channels = 0x10;
  permission_manage_guild = 0x20;
  permission_manage_roles = 0x10000000;
  permission_create_instant_invite = 0x1;
  permission_voice_connect = 0x100000;
  permission_voice_speak = 0x200000;
  permission_voice_stream_video = 0x200;
  permission_voice_mute_members = 0x400000;
  permission_voice_deafen_members = 0x800000;
  permission_voice_move_members = 0x1000000;
  permission_manage_webhooks = 0x20000000;
  permission_manage_guild_expressions = 0x40000000;
  permission_manage_nicknames = 0x8000000;
  permission_kick_members = 0x2;
  permission_ban_members = 0x4;
  permission_moderate_members = 0x10000000000;
  permission_mention_everyone = 0x20000;
  permission_administrator = 0x8;
}

abbrev lobby : DiscordChannel
lobby = record {
  id = "c1";
  name = "Lobby";
  kind = 4;
  parent_id = "";
  position = pos 1;
  permission_overwrites = [];
}

abbrev chat : DiscordChannel
chat = record lobby { id = "ch1"; name = "chat"; kind = 0; parent_id = "c1"; position = pos 0 }

abbrev owner : DiscordRole
owner = record {
  id = "r5";
  name = "Owner";
  color = 0xff00;
  hoist = true;
  position = pos 3;
  permissions = 0x8;
}

abbrev channels : List DiscordChannel
channels = chat ∷ lobby ∷ []

abbrev pub guild : DiscordGuild
guild = record {
  id = "g1";
  name = "Guild";
  description = "";
  icon = "";
  banner = "";
  channels = channels;
  roles = owner ∷ [];
}

abbrev stoat_role : String → RoleInfo
stoat_role id = record {
  id = id;
  name = id;
  colour = "";
  hoist = false;
  rank = pos 1;
  permissions = record { allow = 0; deny = 0 };
}

-- The Stoat server has the elevation role and one role that is not of the guild.
abbrev pub reachable : Env
reachable = record env {
  fetch_server = λ _ _. ok (record {
    name = "Stoat";
    categories = [];
    channel_ids = [];
    roles = stoat_role "01ELEV" ∷ stoat_role "01OLD" ∷ [];
  });
}

abbrev pub setup : Setup
setup = record {
  constants = constants;
  sorter = insertion_sort;
  default_reference = 0;
  find_gif = λ _. "";
  parent = λ _. none;
  self_id = some "u0";
  env = reachable;
  client = client;
  guild_id = "g1";
  server_id = "01SRV";
}

abbrev ann : DiscordUser
ann = record { id = "u1"; username = "ann"; avatar_url = "" }

abbrev greeting : DiscordMessage
greeting = record {
  id = "m1";
  channel_id = "ch1";
  content = "hello";
  author = some ann;
  member = none;
  reference = none;
  attachment_urls = [];
}

mask-permissions_from_bits_example :
    (digit 20 (mask (permissions_from_bits constants 0xc00)) ≡ 1)
    ↔ ((k : ℕ) × (k < 64) × Carries constants 0xc00 20 k)
mask-permissions_from_bits_example = mask-permissions_from_bits constants 0xc00 20

categories_of_lem_example :
    (cs : List DiscordChannel) × Permᴰ cs (select (is_category constants) channels)
    × Sorted (λ ch. ch.position) cs
    × (categories_of constants insertion_sort channels
        ≡ placed constants insertion_sort channels 0 cs)
categories_of_lem_example =
    categories_of_lem constants insertion_sort channels ((refl, tt), (tt, tt))

assemble-Sendable_example :
    Sendable op_create greeting (assemble 0 (λ _. "") op_create (λ _. none) greeting)
assemble-Sendable_example = assemble-Sendable 0 (λ _. "") op_create (λ _. none) greeting

abbrev pub deleted : DiscordEvent
deleted = message_deleted "g1" (some ann) "m1" "ch1"

handle-ToChannel_example :
    All (ToChannel "ch1") (build_message_delete_op reachable (λ _. none) "m1" "ch1" ∷ [])
unfolding handle handle_own is_self_authored
handle-ToChannel_example =
    handle-ToChannel setup (some guild) deleted "ch1"
      (build_message_delete_op reachable (λ _. none) "m1" "ch1" ∷ []) refl refl refl
