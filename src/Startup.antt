-- ===== src/Startup.antt =====
-- `main` of cmd/stoatcord/main.go up to the registration of the handlers (Gates and prepare), and from the
-- elevation role to ConvergeAll. In between main opens the session and waits for the two gateways; the
-- handlers of live events, which run from then on, have a model of their own, and logging is left out.
pub mod Gates
pub mod Spared
pub mod Safety
pub mod Guarded
use luars_stoatcord.Prelude.{String, Bool, Option, List, [], ◌∷◌, ◌≡◌}
use luars_stoatcord.Canonical.Result.{Result, ok, err, failed}
use luars_stoatcord.World.{Env, World}
use luars_stoatcord.World.Exec.{Exec, pure, lift, ◌>>=◌, ◌>>◌}
use luars_stoatcord.Config.{Config, Loaded, loaded, bad_env_file, bad_dry_run, missing}
use luars_stoatcord.Engine.Op.{Op}
use luars_stoatcord.Stoat.Client.{Client}
use luars_stoatcord.Stoat.Elevation.{resolve_elevation_role}
use luars_stoatcord.Discord.Translation.{DiscordGuild}
use luars_stoatcord.Discord.Translation.Sidebar.{structure_from_state}
use luars_stoatcord.Discord.Handlers.{Setup, converge_all}
use luars_stoatcord.Reconcile.Bind.{Params, bind}
use luars_stoatcord.Reconcile.Live.{reconcile_live}
use luars_stoatcord.Wiring.{resolve_admin_roles}
use luars_stoatcord.Startup.Gates.{Steps, gates}

-- A failed load ends the program.
abbrev pub usable : Loaded → Result Config
usable (loaded cfg) = ok cfg
usable bad_env_file = err (failed "config: load")
usable (bad_dry_run text) = err (failed "config: parse STOATCORD_DRY_RUN")
usable (missing names) = err (failed "config: missing required environment variables")

-- The first step that fails ends the program.
unfoldable pub pass : List (Result (Unit {0})) → Result (Unit {0})
pass [] = ok tt
pass (ok _ ∷ rest) = pass rest
pass (err e ∷ rest) = err e

abbrev pub passed : Config → Result (Unit {0}) → Result Config
passed cfg (ok _) = ok cfg
passed cfg (err e) = err e

abbrev prepare_with : Steps → Result Config → Result Config
prepare_with steps (ok cfg) = passed cfg (pass (gates steps cfg))
prepare_with steps (err e) = err e

-- main up to the registration of the handlers: the configuration that the rest goes on with.
unfoldable pub prepare : Loaded → Steps → Result Config
prepare config steps = prepare_with steps (usable config)

-- reconcile.Params
abbrev pub reconcile_params : Setup → Config → Option DiscordGuild → Client → Params
reconcile_params x cfg state c =
    let (categories, channels, roles) = structure_from_state x.constants x.sorter state in
    record {
      server_id = cfg.stoat_server_id;
      guild_id = cfg.discord_guild;
      categories = categories;
      channels = channels;
      roles = roles;
      client = c;
      dry_run = cfg.dry_run;
    }

abbrev pub setup_with : Setup → Config → Client → Setup
setup_with x cfg c = record x {
  client = c;
  guild_id = cfg.discord_guild;
  server_id = cfg.stoat_server_id;
}

module _ (x : Setup) (cfg : Config) (state : Option DiscordGuild) where
  -- From the elevation role on, with the client that has it: the client at the end, and the ops that
  -- ConvergeAll submits.
  unfoldable pub reconcile_startup : Client → Exec World (Client × List Op)
  reconcile_startup c1 = do
    resolved ←
        resolve_admin_roles x.env c1 cfg.stoat_server_id
          (structure_from_state x.constants x.sorter state).2
    bind x.env (reconcile_params x cfg state resolved.1)
    reconcile_live x.env (reconcile_params x cfg state resolved.1)
    pure (resolved.1, converge_all (setup_with x cfg resolved.1) state)

  unfoldable pub resolve_and_reconcile : Exec World (Client × List Op)
  resolve_and_reconcile = do
    c1 ← resolve_elevation_role x.env x.client cfg.stoat_server_id
    reconcile_startup c1
