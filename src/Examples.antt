-- ===== src/Examples.antt =====
-- A small server on which the theorems are tried out: the role "r1" is mirrored, "r2" is not.
mod Engine
mod Startup
mod Mirror
mod Sorting
mod Scheduling
mod Guild
mod Boot
mod Concurrency
mod Launch
mod Storage
use luars_stoatcord.Prelude.{
  String, true, false, Option, none, some, List, [], ◌∷◌, ◌==◌, if◌then◌else◌,
}
use luars_stoatcord.Prelude.Int.{pos}
use luars_stoatcord.Canonical.Result.{ok, err, failed}
use luars_stoatcord.Canonical.Json.{Json}
use luars_stoatcord.Canonical.Types.{Overwrite, Role, view_channel, send_messages}
use luars_stoatcord.Canonical.State.{role_json}
use luars_stoatcord.World.{EntityType, role, active, pending, Row, Store, Env, World}
use luars_stoatcord.Stoat.Client.{Client, ElevationRole}

abbrev pub moderator : Role
moderator = record {
  id = "r1";
  name = "Moderator";
  colour = "#00FF00";
  hoist = true;
  rank = pos 0;
  permissions = record { allow = view_channel ∷ send_messages ∷ []; deny = [] };
  privileged = false;
}

abbrev pub rows : EntityType → String → Option Row
rows role k =
    if k == "r1"
    then some
        (record { stoat_id = some "01MOD"; status = active; canonical_state = role_json moderator })
    else none
rows _ k = none

abbrev pub start : World
start = record {
  store = record { rows = rows; messages = []; op_queue = [] };
  asked = 0;
  trace = [];
}

-- Both gateways are up, the database answers, and Stoat names what it creates "01NEW".
abbrev pub env : Env
env = record {
  foreign_keys = true;
  db_fails = λ _. false;
  answer = λ _ _. ok "01NEW";
  fetch_server = λ _ _. err (failed "not reachable");
  fetch_channel = λ _ _. err (failed "not reachable");
  fetch_self = λ _. ok "01BOT";
  fetch_member_roles = λ _ _ _. ok [];
  discord_ready = λ _. true;
  stoat_healthy = λ _. true;
  wait_fails = λ _. none;
}

abbrev pub elevation : ElevationRole
elevation = record { id = "01ELEV"; permissions = 7 }

abbrev pub client : Client
client = record { elevation = some elevation; admin_roles = "01ADMIN" ∷ [] }
