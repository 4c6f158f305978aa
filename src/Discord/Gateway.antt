-- ===== src/Discord/Gateway.antt =====
-- internal/discord/gateway.go and role_gateway.go.
use luars_stoatcord.Prelude.{
  String, Bool, true, false, ◌&&◌, Option, none, some, List, [], ◌∷◌, ◌==◌, if◌then◌else◌,
}
use luars_stoatcord.Prelude.Maps.{Map, insert}
use luars_stoatcord.Canonical.Result.{Result, ok, err}
use luars_stoatcord.Canonical.Json.{Json, raw}
use luars_stoatcord.Canonical.Types.{Channel, Role, Overwrite, StoatOverwrite}
use luars_stoatcord.Canonical.Emit.{channel_to_stoat, role_to_stoat}
use luars_stoatcord.Canonical.State.{channel_json, parse_channel, role_json, parse_role}
use luars_stoatcord.World.{EntityType, channel, role, MappingStatus, active, Env, World}
use luars_stoatcord.World.Exec.{Exec, pure, ◌>>=◌, ◌>>◌}
use luars_stoatcord.Store.{Mapping, get}
use luars_stoatcord.Engine.Op.{OpKind, op_delete, DependencyKey, Op, has_stoat_entity}
use luars_stoatcord.Stoat.Client.{Client}
use luars_stoatcord.Stoat.Role
use luars_stoatcord.Stoat.Channel
use luars_stoatcord.Discord.Compare.{channel_equal, role_equal}

-- everyoneOverwriteRoleID
abbrev pub everyone_overwrite_role_id : String
everyone_overwrite_role_id = "default"

abbrev pub status_is_active : MappingStatus → Bool
status_is_active active = true
status_is_active _ = false

-- mapping.Found && mapping.Status == engine.StatusActive
abbrev pub is_active : Mapping → Bool
is_active m = m.found && status_is_active m.status

-- The function of a mapping read that is `err` where the code returns an error.
abbrev pub with_error : {A B : Type 0} → Result A → (A → B) → Result B
with_error (ok a) f = ok (f a)
with_error (err e) f = err e

-- A call whose result is only its error.
abbrev pub ignore : Exec World String → Exec World (Unit {0})
ignore m = do m; pure tt

abbrev pub role_dependencies : Map Overwrite → List DependencyKey
role_dependencies [] = []
role_dependencies ((id, _) ∷ rest) =
    (record { entity = role; discord_id = id }) ∷ role_dependencies rest

abbrev pub resolved_as : Mapping → StoatOverwrite → Map StoatOverwrite → Map StoatOverwrite
resolved_as m ow resolved = if m.found then insert m.stoat_id ow resolved else resolved

unfoldable pub channel_diff : Channel → Json → Result Bool
channel_diff ch stored =
    with_error (parse_channel stored) λ s. channel_equal (channel_to_stoat s) (channel_to_stoat ch)

-- The ops of deletes: no canonical state, no dependencies and no Diff.
abbrev pub delete_op : EntityType → String → Exec World String → Op
delete_op t k apply = record {
  kind = op_delete;
  entity = t;
  discord_id = k;
  channel_id = "";
  canonical_state = raw "";
  depends_on = [];
  diff = none;
  apply = apply;
}

unfoldable pub role_diff : Role → Json → Result Bool
role_diff r stored =
    with_error (parse_role stored) λ s. role_equal (role_to_stoat s) (role_to_stoat r)

module _ (env : Env) where
  unfoldable pub apply_create_or_edit :
      EntityType → String → (String → Exec World (Unit {0})) → Exec World String → Exec World String
  apply_create_or_edit t k edit create = do
    m ← get env t k
    if has_stoat_entity m then (do edit m.stoat_id; pure m.stoat_id) else create

  unfoldable pub apply_delete :
      EntityType → String → (String → Exec World (Unit {0})) → Exec World String
  apply_delete t k del = do
    m ← get env t k
    if is_active m then (do del m.stoat_id; pure "") else pure ""

  unfoldable pub resolve_overwrite_role_ids :
      String → Map StoatOverwrite → Map StoatOverwrite → Exec World (Map StoatOverwrite)
  resolve_overwrite_role_ids guild_id [] resolved = pure resolved
  resolve_overwrite_role_ids guild_id ((id, ow) ∷ rest) resolved =
      if id == guild_id
      then resolve_overwrite_role_ids guild_id rest (insert everyone_overwrite_role_id ow resolved)
      else do
        m ← get env role id
        resolve_overwrite_role_ids guild_id rest (resolved_as m ow resolved)

  unfoldable pub apply_channel : String → String → Client → Channel → Exec World String
  apply_channel guild_id server c ch = do
    let wire = channel_to_stoat ch
    resolved ← resolve_overwrite_role_ids guild_id wire.overwrites []
    let out = record wire { overwrites = resolved }
    apply_create_or_edit channel ch.id (λ id. Channel.edit env c id out)
        (Channel.create env c server out)

  -- BuildChannelOp, of what ChannelFromDiscord gives
  unfoldable pub build_channel_op : OpKind → String → String → Client → Option Channel → Option Op
  build_channel_op kind guild_id server c none = none
  build_channel_op kind guild_id server c (some ch) = some (record {
    kind = kind;
    entity = channel;
    discord_id = ch.id;
    channel_id = "";
    canonical_state = channel_json ch;
    depends_on = role_dependencies ch.overwrites;
    diff = some (channel_diff ch);
    apply = apply_channel guild_id server c ch;
  })

  unfoldable pub build_channel_delete_op : Client → String → Op
  build_channel_delete_op c k =
      delete_op channel k (apply_delete channel k (λ id. ignore (Channel.delete env c id)))

  -- BuildRoleOp, of what RoleFromDiscord gives
  unfoldable pub build_role_op : OpKind → String → Client → Role → Op
  build_role_op kind server c r = record {
    kind = kind;
    entity = role;
    discord_id = r.id;
    channel_id = "";
    canonical_state = role_json r;
    depends_on = [];
    diff = some (role_diff r);
    apply =
        apply_create_or_edit role r.id (λ id. ignore (Role.edit env c server id (role_to_stoat r)))
          (Role.create env c server (role_to_stoat r));
  }

  unfoldable pub build_role_delete_op : Client → String → String → Op
  build_role_delete_op c server k =
      delete_op role k (apply_delete role k (λ id. ignore (Role.delete env c server id)))
