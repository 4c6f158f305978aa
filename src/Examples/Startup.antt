-- ===== src/Examples/Startup.antt =====
-- The theorems about the binding at startup on the small server.

use luars_stoatcord.Prelude.{String, ◌≡◌, refl, ◌∷◌, [], List, false, All}
use luars_stoatcord.World.{EntityType, role}
use luars_stoatcord.Store.{write_pending, confirm}
use luars_stoatcord.Store.View.{view}
use luars_stoatcord.Reconcile.Bind.{
  Params, Identity, find_match, no_match, bind_items, reap_items, empty_canonical_state, take_out,
}
use luars_stoatcord.Reconcile.Bind.Matching.{Decides, find_match-Decides, plan}
use luars_stoatcord.Reconcile.Bind.Writes.{rebound, views, bind_items_lem}
use luars_stoatcord.Reconcile.Bind.Reaping.{Reaped, reap_items-Reaped}
use luars_stoatcord.Reconcile.Live.{repair_mapping}
use luars_stoatcord.Reconcile.Live.Repair.{Repaired, repair_mapping-Repaired}
use luars_stoatcord.World.{Env, RoleInfo}
use luars_stoatcord.Canonical.Result.{ok}
use luars_stoatcord.Prelude.Int.{pos}
use luars_stoatcord.Stoat.Elevation.{resolve_elevation_role}
use luars_stoatcord.Stoat.Resolved.{Resolved, resolve_elevation_role-Resolved}
use luars_stoatcord.Reconcile.Bind.{verify_elevation_role_unmapped}
use luars_stoatcord.Reconcile.Bind.Elevation.{Verified, verify_elevation_role_unmapped-Verified}
use luars_stoatcord.Examples.{env, start, client, moderator}

abbrev identity : String → String → Identity
identity id name = record { id = id; name = name; kind = "" }

abbrev discord_roles : List Identity
discord_roles = identity "r2" "Artist" ∷ identity "r3" "Guest" ∷ []

abbrev stoat_roles : List Identity
stoat_roles = identity "01ART" "Artist" ∷ identity "01A" "Twin" ∷ identity "01B" "Twin" ∷ []

abbrev params : Params
params = record {
  server_id = "01SRV";
  guild_id = "g1";
  categories = [];
  channels = [];
  roles = moderator ∷ [];
  client = client;
  dry_run = false;
}

find_match-Decides_example :
    Decides
      (identity "r2" "Artist")
      stoat_roles
      (find_match (identity "r2" "Artist") no_match stoat_roles)
find_match-Decides_example = find_match-Decides (identity "r2" "Artist") stoat_roles

abbrev left_over : List Identity
left_over = identity "01A" "Twin" ∷ identity "01B" "Twin" ∷ []

bind_items_lem_example :
    (left_over ≡ (plan stoat_roles discord_roles).1)
    × ((t' : EntityType) (k' : String)
        → view t' k' (bind_items env role stoat_roles discord_roles start).1.store
          ≡ rebound role (plan stoat_roles discord_roles).0 (views start.store) t' k')
unfolding bind_items find_match take_out write_pending confirm
bind_items_lem_example = bind_items_lem env role discord_roles stoat_roles left_over start refl

reap_items-Reaped_example :
    All
      (Reaped "01ELEV" ("01A" ∷ "01B" ∷ []))
      (reap_items env role params "01ELEV" left_over start).1.trace
reap_items-Reaped_example = reap_items-Reaped env params "01ELEV" role left_over start tt

repair_mapping-Repaired_example :
    Repaired role "r1" empty_canonical_state "01MOD" start.store
      (repair_mapping env role "r1" "01MOD" false empty_canonical_state start)
repair_mapping-Repaired_example =
    repair_mapping-Repaired env role "r1" "01MOD" false empty_canonical_state start

verify_elevation_role_unmapped-Verified_example :
    Verified "01ELEV" start.store (identity "r1" "Moderator" ∷ discord_roles) (
      verify_elevation_role_unmapped env "01ELEV" (identity "r1" "Moderator" ∷ discord_roles) start)
verify_elevation_role_unmapped-Verified_example =
    verify_elevation_role_unmapped-Verified env "01ELEV" (identity "r1" "Moderator" ∷ discord_roles)
      start

abbrev rank0 : RoleInfo
rank0 = record {
  id = "01ELEV";
  name = "Bot";
  colour = "";
  hoist = false;
  rank = pos 0;
  permissions = record { allow = 7; deny = 0 };
}

abbrev reachable : Env
reachable = record env {
  fetch_server =
      λ _ _. ok (record { name = "Home"; categories = []; channel_ids = []; roles = rank0 ∷ [] });
  fetch_member_roles = λ _ _ _. ok ("01ELEV" ∷ []);
}

resolve_elevation_role-Resolved_example :
    Resolved reachable "01SRV" client start (resolve_elevation_role reachable client "01SRV" start)
resolve_elevation_role-Resolved_example =
    resolve_elevation_role-Resolved reachable "01SRV" client start
