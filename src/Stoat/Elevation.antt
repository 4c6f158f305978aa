-- ===== src/Stoat/Elevation.antt =====
-- internal/stoat/elevation.go: which role the bot's rights rest on.
use luars_stoatcord.Prelude.{String, Bool, some, List, [], ◌∷◌, contains, select, if◌then◌else◌}
use luars_stoatcord.Prelude.Int.{ℤ, pos, eq_ℤ}
use luars_stoatcord.Canonical.Result.{failed}
use luars_stoatcord.World.{Env, World, RoleInfo}
use luars_stoatcord.World.Exec.{Exec, raise, pure, ◌>>=◌}
use luars_stoatcord.Stoat.Client.{Client, fetch_server, fetch_self_role_ids}

abbrev pub elevation_rank0 : ℤ
elevation_rank0 = pos 0

abbrev pub at_rank0 : RoleInfo → Bool
at_rank0 r = eq_ℤ r.rank elevation_rank0

module _ (env : Env) where
  -- the rest of ResolveElevationRole, from the roles at rank 0
  unfoldable pub wear_only : Client → String → List RoleInfo → Exec World Client
  wear_only c server [] = raise (failed "stoat: no role at rank 0")
  wear_only c server (role ∷ []) = do
    self_ids ← fetch_self_role_ids env server
    if contains role.id self_ids
        then pure (record c {
          elevation = some (record { id = role.id; permissions = role.permissions.allow });
        })
        else raise (failed "stoat: bot does not wear the rank-0 role")
  wear_only c server (_ ∷ _ ∷ _) = raise (failed "stoat: elevation role is ambiguous")

  -- ResolveElevationRole: the client with the role cached
  unfoldable pub resolve_elevation_role : Client → String → Exec World Client
  resolve_elevation_role c server = do
    info ← fetch_server env server
    wear_only c server (select at_rank0 info.roles)
