-- ===== src/Examples/Launch.antt =====
-- The start of the program on the small server: the admin roles, the passes, and an op after them.
use mathlib.Core.List.{Memᴰ}
use luars_stoatcord.Prelude.{
  String, ◌≡◌, refl, true, false, Option, none, some, inr, List, [], ◌∷◌, ◌++◌, ◌==◌, All, length,
  if◌then◌else◌, arith,
}
use luars_stoatcord.Prelude.Int.{pos}
use luars_stoatcord.Canonical.Types.{Role}
use luars_stoatcord.Canonical.State.{role_json}
use luars_stoatcord.Canonical.Emit.{role_to_stoat}
use luars_stoatcord.World.{EntityType, role, active, Row, World, RoleInfo}
use luars_stoatcord.World.Exec.{pure, ◌>>◌}
use luars_stoatcord.Store.{get, statement, row_mapping}
use luars_stoatcord.Engine.Op.{Op, op_update}
use luars_stoatcord.Engine.Scheduling.{Move, submits, sends, works, run, new_scheduler}
use luars_stoatcord.Stoat.Client.{
  fetch_self_role_ids, set_admin_role_ids, fetch_self, fetch_member_roles,
}
use luars_stoatcord.Stoat.Server.{add_self_to_role}
use luars_stoatcord.Stoat.Guard.{Spares}
use luars_stoatcord.Discord.Handlers.{Setup, role_updated, role_op, handle, handle_own}
use luars_stoatcord.Discord.Handlers.Mirroring.{Mirrors}
use luars_stoatcord.Store.View.{view}
use luars_stoatcord.Stoat.Role
use luars_stoatcord.Stoat.Client.{is_elevation_role, call, set_role_permissions}
use luars_stoatcord.Reconcile.Bind.{empty_canonical_state}
use luars_stoatcord.Reconcile.Live.{find_role, reconcile_role_live}
use luars_stoatcord.Reconcile.Live.Repair.{Repaired}
use luars_stoatcord.Reconcile.Live.Clamped.{reconcile_role_live-Drifted}
use luars_stoatcord.Wiring.{admin_roles, resolve_admin_roles, mirror_admin_roles, mirror_admin_role}
use luars_stoatcord.Wiring.Choosing.{IsFirstOfSmallest, nth, resolve_admin_roles-Takes}
use luars_stoatcord.Canonical.Result.{ok}
use luars_stoatcord.Config.{Config, loaded, data_dir}
use luars_stoatcord.Startup.{pass, prepare}
use luars_stoatcord.Startup.Gates.{Steps, granted, gates, acquire, parse_level}
use luars_stoatcord.Startup.Guarded.{Passed, prepare-Passed}
use luars_stoatcord.Startup.{setup_with, reconcile_startup}
use luars_stoatcord.Startup.Safety.{client_or, reconcile_startup-Spared}
use luars_stoatcord.Examples.{env, start, client, elevation, moderator}
use luars_stoatcord.Examples.Guild.{setup, guild, reachable}
use luars_stoatcord.Examples.Concurrency.{painter}

abbrev config : Config
config = record {
  discord_token = "d";
  stoat_token = "s";
  discord_guild = "g1";
  stoat_server_id = "01SRV";
  stoat_api_base = "https://example.org";
  log_level = "";
  dry_run = false;
}

-- What the startup makes of the setup.
abbrev launched : Setup
launched =
    setup_with setup config
      (client_or client (reconcile_startup setup config (some guild) client start).0)

abbrev later : Op
later = role_op launched (some guild) op_update painter

later-Mirrors : Mirrors launched (some guild) later
unfolding handle handle_own
later-Mirrors = inr (role_updated "g1" painter, (later ∷ []), refl, Memᴰ.head refl)

abbrev launching : List Move
launching = submits later ∷ sends 0 ∷ works "role:r1" ∷ works "role:r1" ∷ works "role:r1" ∷ []

reconcile_startup-Spared_example :
    All (Spares "01ELEV") (reconcile_startup setup config (some guild) client start).1.trace
    × All
        (Spares "01ELEV")
        (run reachable false launching
          (new_scheduler (reconcile_startup setup config (some guild) client start).1)).world.trace
reconcile_startup-Spared_example =
    reconcile_startup-Spared setup config (some guild) client elevation refl start tt false
      launching ((some guild, later-Mirrors), (tt, (tt, (tt, (tt, tt)))))

-- Two admin roles, of which the second one ranks higher, and a role that is none.
abbrev deputy : Role
deputy = record moderator { id = "r3"; rank = pos 2; privileged = true }

abbrev captain : Role
captain = record moderator { id = "r4"; rank = pos 1; privileged = true }

abbrev admin_rows : EntityType → String → Option Row
admin_rows role k = some (record {
  stoat_id = some (if k == "r3" then "01DEP" else "01CAP");
  status = active;
  canonical_state = role_json deputy;
})
admin_rows _ k = none

abbrev mirrored : World
mirrored = record start { store = record start.store { rows = admin_rows } }

resolve_admin_roles-Takes_example :
    (before : List Role) × (q : Role) × (after : List Role) × (admin_roles
        (moderator ∷ deputy ∷ captain ∷ [])
      ≡ before ++ q ∷ after)
    × IsFirstOfSmallest (before, q, after)
    × (resolve_admin_roles env client "01SRV" (moderator ∷ deputy ∷ captain ∷ []) mirrored
        ≡ (do
          add_self_to_role env "01SRV" (nth (length before) ("01DEP" ∷ "01CAP" ∷ []))
          pure (("01DEP" ∷ "01CAP" ∷ []), set_admin_role_ids ("01DEP" ∷ "01CAP" ∷ []) client))
            (record mirrored { asked = 4 }))
unfolding mirror_admin_roles mirror_admin_role get statement row_mapping fetch_self_role_ids
    fetch_self fetch_member_roles
resolve_admin_roles-Takes_example =
    resolve_admin_roles-Takes env client "01SRV" (moderator ∷ deputy ∷ captain ∷ []) mirrored
      (record mirrored { asked = 2 }) (record mirrored { asked = 4 }) ("01DEP" ∷ "01CAP" ∷ []) []
      ((refl, tt), (tt, tt)) refl refl refl (λ p. ground arith)

-- Everything is there, and no other instance holds the lock.
abbrev steps : Steps
steps = record {
  unmarshal = λ _. none;
  getenv = λ _. "";
  join = λ _. "/data";
  home = some "/home";
  make_directory = ok tt;
  open_log_file = ok tt;
  open_lock_file = ok tt;
  flock = granted;
  open_store = ok tt;
  new_stoat_client = ok tt;
  new_discord_session = ok tt;
}

prepare-Passed_example : (loaded config ≡ loaded config) × Passed steps
unfolding prepare pass gates acquire parse_level data_dir
prepare-Passed_example = prepare-Passed (loaded config) steps config refl

abbrev live_moderator : RoleInfo
live_moderator = record {
  id = "01MOD";
  name = "Moderator";
  colour = "#00FF00";
  hoist = true;
  rank = pos 1;
  permissions = record { allow = 0; deny = 0 };
}

reconcile_role_live-Drifted_example :
    Repaired role "r1" empty_canonical_state
      (view role "r1" start.store).stoat_id
      start.store
      (reconcile_role_live env (live_moderator ∷ []) moderator start)
unfolding Role.edit is_elevation_role call set_role_permissions Role.clamp_rank view row_mapping
    find_role role_to_stoat
reconcile_role_live-Drifted_example =
    reconcile_role_live-Drifted env client elevation "01SRV" "01MOD" moderator start "#00FF00" true
      (pos 1) refl refl refl (Memᴰ.tail (Memᴰ.head refl)) (live_moderator ∷ []) live_moderator start
      refl refl refl refl
