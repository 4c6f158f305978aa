-- ===== src/Engine/Op.antt =====
-- internal/engine/op.go, types.go, and the keys that the engine derives from an op.
use Prim.Native.String.{◌++◌ as concat}
use luars_stoatcord.Prelude.{
  String, Bool, true, false, ◌&&◌, not, Option, List, ◌==◌, if◌then◌else◌,
}
use luars_stoatcord.Canonical.Result.{Result}
use luars_stoatcord.Canonical.Json.{Json}
use luars_stoatcord.World.{
  EntityType, server, category, channel, role, emoji, message, unknown, World,
}
use luars_stoatcord.World.Exec.{Exec}
use luars_stoatcord.Store.{Mapping}

pub data OpKind : Type 0 where
  op_create op_update op_delete : OpKind

pub record DependencyKey : Type 0 where
  pub entity : EntityType
  pub discord_id : String

-- Diff is `none` for a delete. Apply may read the mappings and call Stoat.
pub record Op : Type 0 where
  pub kind : OpKind
  pub entity : EntityType
  pub discord_id : String
  pub channel_id : String
  pub canonical_state : Json
  pub depends_on : List DependencyKey
  pub diff : Option (Json → Result Bool)
  pub apply : Exec World String

-- string(entityType)
abbrev pub entity_text : EntityType → String
entity_text server = "server"
entity_text category = "category"
entity_text channel = "channel"
entity_text role = "role"
entity_text emoji = "emoji"
entity_text message = "message"
entity_text (unknown s) = s

-- %d of an OpKind
abbrev pub kind_text : OpKind → String
kind_text op_create = "0"
kind_text op_update = "1"
kind_text op_delete = "2"

unfoldable pub op_queue_type : Op → String
op_queue_type op = concat (entity_text op.entity) (concat ":" (kind_text op.kind))

abbrev pub is_message : EntityType → Bool
is_message message = true
is_message _ = false

-- the serialization key of Submit
unfoldable pub worker_key : Op → String
worker_key op =
    if is_message op.entity && not (op.channel_id == "")
    then concat "message:" op.channel_id
    else concat (entity_text op.entity) (concat ":" op.discord_id)

abbrev bucket : EntityType → String → String → String
bucket role d c = "servers"
bucket category d c = "servers"
bucket server d c = "servers"
bucket channel d c = concat "channels:" d
bucket message d c = concat "messaging:" c
bucket _ d c = "any"

-- the rate-limit bucket of an op's remote call
unfoldable pub bucket_key : Op → String
bucket_key op = bucket op.entity op.discord_id op.channel_id

-- Mapping.HasStoatEntity
unfoldable pub has_stoat_entity : Mapping → Bool
has_stoat_entity m = m.found && not (m.stoat_id == "")
