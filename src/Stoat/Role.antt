-- ===== src/Stoat/Role.antt =====
-- internal/stoat/role.go.
use luars_stoatcord.Prelude.{String, if◌then◌else◌}
use luars_stoatcord.Prelude.Int.{ℤ, pos, ltb_ℤ}
use luars_stoatcord.Canonical.Result.{failed}
use luars_stoatcord.Canonical.Types.{StoatRole}
use luars_stoatcord.World.{Env, World, create_role, edit_role, delete_role}
use luars_stoatcord.World.Exec.{Exec, raise, pure, ◌>>=◌, ◌>>◌}
use luars_stoatcord.Stoat.Client.{Client, is_elevation_role, call, set_role_permissions}

abbrev pub minimum_mirrored_rank : ℤ
minimum_mirrored_rank = pos 1

-- max(rank, minimumMirroredRank)
unfoldable pub clamp_rank : ℤ → ℤ
clamp_rank r = if ltb_ℤ r minimum_mirrored_rank then minimum_mirrored_rank else r

module _ (env : Env) (c : Client) where
  -- Client.EditRole
  unfoldable pub edit : String → String → StoatRole → Exec World String
  edit server id r =
      if is_elevation_role c id
      then raise (failed "stoat: refusing to edit the bot's own elevation role")
      else do
        call env (edit_role server id r.colour r.hoist (clamp_rank r.rank))
        set_role_permissions env server id r.permissions.allow r.permissions.deny

  -- Client.CreateRole; the id that it returns beside an error is used by no caller
  unfoldable pub create : String → StoatRole → Exec World String
  create server r = do id ← call env (create_role server r.name); edit server id r; pure id

  -- Client.DeleteRole
  unfoldable pub delete : String → String → Exec World String
  delete server id =
      if is_elevation_role c id
      then raise (failed "stoat: refusing to delete the bot's own elevation role")
      else call env (delete_role server id)
