-- ===== src/World.antt =====
-- The state that the operations work on: the database of internal/store, and what has been asked of
-- the outside so far. What the outside answers is a parameter, `Env`.
pub mod Exec
use luars_stoatcord.Prelude.{
  ℕ, ◌+◌, String, Bool, true, false, ◌&&◌, Option, none, some, List, [], ◌∷◌, ◌==◌, if◌then◌else◌,
}
use luars_stoatcord.Prelude.Int.{ℤ}
use luars_stoatcord.Prelude.Maps.{Map}
use luars_stoatcord.Canonical.Result.{Result, Error}
use luars_stoatcord.Canonical.Json.{Json}
use luars_stoatcord.Canonical.Types.{Category, StoatMessage, StoatOverwrite, ChannelType}

-- engine.EntityType; `unknown` is any other text.
pub data EntityType : Type 0 where
  server category channel role emoji message : EntityType
  unknown : String → EntityType

abbrev pub entity_eq : EntityType → EntityType → Bool
entity_eq server server = true
entity_eq category category = true
entity_eq channel channel = true
entity_eq role role = true
entity_eq emoji emoji = true
entity_eq message message = true
entity_eq (unknown a) (unknown b) = a == b
entity_eq _ _ = false

-- The status column; `unset` is the empty text of a zero Mapping.
pub data MappingStatus : Type 0 where
  unset pending active deleting : MappingStatus

-- A row of one of the five tables of the common shape. `none` is SQL's NULL.
pub record Row : Type 0 where
  pub stoat_id : Option String
  pub status : MappingStatus
  pub canonical_state : Json

-- A row of message_map.
pub record MessageRow : Type 0 where
  pub stoat_msg_id : Option String
  pub channel_id : String
  pub canonical_state : Json

-- The tables. Nothing ever lists one of the five mapping tables, so they are functions of the key;
-- message_map is searched by its foreign key. op_queue is in insertion order.
pub record Store : Type 0 where
  pub rows : EntityType → String → Option Row
  pub messages : Map MessageRow
  pub op_queue : List (String × Json)

-- A write that internal/stoat asks of the Stoat server through the revolt library.
pub data Request : Type 0 where
  create_role : (server name : String) → Request
  edit_role : (server role colour : String) → Bool → ℤ → Request
  delete_role : (server role : String) → Request
  put_channel_permissions : (channel role : String) → (allow deny : ℕ) → Request
  put_role_permissions : (server role : String) → (allow deny : ℕ) → Request
  create_text_channel create_voice_channel : (server name : String) → Request
  edit_channel : (channel name : String) → Request
  delete_channel : String → Request
  edit_server : (server name description : String) → Request
  set_categories : (server : String) → List Category → Request
  send_message : (channel : String) → StoatMessage → Request
  edit_message : (channel message content : String) → Request
  delete_message : (channel message : String) → Request
  upload : (tag url : String) → Request
  edit_member : (server user : String) → List String → Request

pub data Event : Type 0 where
  waited : String → Event
  backed_off : String → ℕ → Event
  requested : Request → Event

-- stoat.CategoryInfo, RoleInfo, ServerInfo and ChannelInfo: what the server's state reads as.
pub record CategoryInfo : Type 0 where
  pub id : String
  pub title : String
  pub channel_ids : List String

pub record RoleInfo : Type 0 where
  pub id : String
  pub name : String
  pub colour : String
  pub hoist : Bool
  pub rank : ℤ
  pub permissions : StoatOverwrite

pub record ServerInfo : Type 0 where
  pub name : String
  pub categories : List CategoryInfo
  pub channel_ids : List String
  pub roles : List RoleInfo

pub record ChannelInfo : Type 0 where
  pub id : String
  pub name : String
  pub kind : ChannelType
  pub default_permissions : Option StoatOverwrite
  pub role_permissions : Map StoatOverwrite

-- Whether the connection to the database enforces foreign keys (Open sets it), and the outside's
-- answer to the n-th thing that is asked of it: whether the database driver fails,
-- what Stoat returns, whether the two gateways are up, and whether the limiter's Wait is cancelled.
pub record Env : Type 0 where
  pub foreign_keys : Bool
  pub db_fails : ℕ → Bool
  pub answer : ℕ → Request → Result String
  pub fetch_server : ℕ → String → Result ServerInfo
  pub fetch_channel : ℕ → String → Result ChannelInfo
  pub fetch_self : ℕ → Result String
  pub fetch_member_roles : ℕ → String → String → Result (List String)
  pub discord_ready : ℕ → Bool
  pub stoat_healthy : ℕ → Bool
  pub wait_fails : ℕ → Option Error

-- `asked` counts the questions; `trace` holds the writes and the limiter's calls, latest first.
pub record World : Type 0 where
  pub store : Store
  pub asked : ℕ
  pub trace : List Event
