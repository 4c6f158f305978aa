-- ===== src/Stoat/Read.antt =====
-- internal/stoat/read.go: what FetchServer and FetchChannel make of an answer of the Stoat server. The
-- decoding of the JSON text is encoding/json's: a parameter that gives the raw structures.
use luars_stoatcord.Prelude.{
  ℕ, ◌-◌, ◌^◌, ◌%◌, String, Bool, not, ◌||◌, ◌==◌, Option, List, [], ◌∷◌, if◌then◌else◌,
}
use luars_stoatcord.Prelude.Int.{ℤ, pos, negsuc}
use luars_stoatcord.Prelude.Maps.{Map, map_values, map_option}
use luars_stoatcord.Canonical.Result.{Result, ok, ◌>>=◌}
use luars_stoatcord.Canonical.Types.{StoatOverwrite, ChannelType, text, voice}
use luars_stoatcord.World.{CategoryInfo, RoleInfo, ServerInfo, ChannelInfo}

-- rawOverride; its fields are int64
pub record RawOverride : Type 0 where
  pub allow : ℤ
  pub deny : ℤ

-- uint64(n) of an int64
unfoldable pub unsigned : ℤ → ℕ
unsigned (pos n) = n % 2 ^ 64
unsigned (negsuc n) = (2 ^ 64 - 1) - n % 2 ^ 64

-- rawOverride.toStoat
unfoldable pub override_to_stoat : RawOverride → StoatOverwrite
override_to_stoat o = record { allow = unsigned o.allow; deny = unsigned o.deny }

-- rawChannel; `voice` is the raw text of the field, empty if it is not there
pub record RawChannel : Type 0 where
  pub id : String
  pub name : String
  pub voice : String
  pub default_permissions : Option RawOverride
  pub role_permissions : Map RawOverride

-- rawChannel.channelType
unfoldable pub channel_type : RawChannel → ChannelType
channel_type rc = if not (rc.voice == "" || rc.voice == "null") then voice else text

-- rawServer; the roles are undecoded texts
pub record RawServer : Type 0 where
  pub name : String
  pub channel_ids : List String
  pub categories : List CategoryInfo
  pub roles : Map String

-- The anonymous structure that a role is decoded to.
pub record RawRole : Type 0 where
  pub name : String
  pub colour : String
  pub hoist : Bool
  pub rank : ℤ
  pub permissions : RawOverride

abbrev pub role_info : String → RawRole → RoleInfo
role_info id r = record {
  id = id;
  name = r.name;
  colour = r.colour;
  hoist = r.hoist;
  rank = r.rank;
  permissions = override_to_stoat r.permissions;
}

-- The loop over the roles: the first one that cannot be decoded ends it.
unfoldable pub read_roles : (String → Result RawRole) → Map String → Result (List RoleInfo)
read_roles decode [] = ok []
read_roles decode ((id, role) ∷ roles) = do
  r ← decode role
  rest ← read_roles decode roles
  ok (role_info id r ∷ rest)

-- FetchServer, of what the request returns
unfoldable pub read_server :
    (String → Result RawServer) → (String → Result RawRole) → Result String → Result ServerInfo
read_server decode decode_role answer = do
  body ← answer
  raw ← decode body
  roles ← read_roles decode_role raw.roles
  ok (record {
    name = raw.name;
    categories = raw.categories;
    channel_ids = raw.channel_ids;
    roles = roles;
  })

-- FetchChannel, of what the request returns
unfoldable pub read_channel : (String → Result RawChannel) → Result String → Result ChannelInfo
read_channel decode answer = do
  body ← answer
  raw ← decode body
  ok (record {
    id = raw.id;
    name = raw.name;
    kind = channel_type raw;
    default_permissions = map_option override_to_stoat raw.default_permissions;
    role_permissions = map_values override_to_stoat raw.role_permissions;
  })
