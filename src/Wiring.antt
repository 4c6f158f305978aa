-- ===== src/Wiring.antt =====
-- cmd/stoatcord/wiring.go: the admin roles that the bot resolves at startup. Logging is left out.
pub mod Choosing
use luars_stoatcord.Prelude.{
  String, ◌||◌, not, List, [], ◌∷◌, ◌==◌, any, Bool-cases, inl, inr, contains, All, arith,
  if◌then◌else◌, select,
}
use luars_stoatcord.Prelude.Int.{ℤ, ◌≤ℤ◌, ltb_ℤ}
use luars_stoatcord.Canonical.Result.{failed}
use luars_stoatcord.Canonical.Types.{Role}
use luars_stoatcord.Canonical.Emit.{role_to_stoat}
use luars_stoatcord.Canonical.State.{role_json}
use luars_stoatcord.World.{role, Env, World}
use luars_stoatcord.World.Exec.{Exec, pure, raise, ◌>>=◌, ◌>>◌}
use luars_stoatcord.Store.{get, write_pending, confirm}
use luars_stoatcord.Stoat.Client.{Client, fetch_self_role_ids, set_admin_role_ids}
use luars_stoatcord.Stoat.Role
use luars_stoatcord.Stoat.Server.{add_self_to_role}
use luars_stoatcord.Reconcile.Bind.{is_active}

abbrev pub admin_roles : List Role → List Role
admin_roles rs = select (λ (r : Role). r.privileged) rs

-- The role that the bot takes if it holds none: the search keeps the first of the smallest rank.
unfoldable pub target_role : Role → List Role → Role
target_role target [] = target
target_role target (r ∷ rs) = target_role (if ltb_ℤ r.rank target.rank then r else target) rs

-- stoatIDs[targetIndex], where the index is the first one of the id
unfoldable pub id_of_role : String → List Role → List String → String
id_of_role id (r ∷ rs) (s ∷ ss) = let rest = id_of_role id rs ss in if r.id == id then s else rest
id_of_role id _ _ = ""

module _ (env : Env) (c : Client) (server : String) where
  -- The Stoat id of an admin role, which is mirrored first if it has none.
  unfoldable pub mirror_admin_role : Role → Exec World String
  mirror_admin_role r = do
    m ← get env role r.id
    if not (is_active m) || m.stoat_id == ""
        then (do
          id ← Role.create env c server (role_to_stoat r)
          write_pending env role r.id (role_json r)
          confirm env role r.id id
          pure id)
        else pure m.stoat_id

  unfoldable pub mirror_admin_roles : List Role → Exec World (List String)
  mirror_admin_roles [] = pure []
  mirror_admin_roles (r ∷ rs) = do
    id ← mirror_admin_role r
    ids ← mirror_admin_roles rs
    pure (id ∷ ids)

  -- The ids, and the client that grants them.
  abbrev pub resolve_among : List Role → Exec World (List String × Client)
  resolve_among [] = raise (failed "discord: no role carries ADMINISTRATOR")
  resolve_among (r ∷ rs) = do
    ids ← mirror_admin_roles (r ∷ rs)
    held ← fetch_self_role_ids env server
    if any (λ id. contains id held) ids
        then pure tt
        else add_self_to_role env server (id_of_role (target_role r rs).id (r ∷ rs) ids)
    pure (ids, set_admin_role_ids ids c)

  unfoldable pub resolve_admin_roles : List Role → Exec World (List String × Client)
  resolve_admin_roles rs = resolve_among (admin_roles rs)
