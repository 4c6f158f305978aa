-- ===== src/Stoat/Guard.antt =====
-- The role requests of internal/stoat/role.go and the bot's own elevation role.
use luars_stoatcord.Prelude.{
  String, ◌≡◌, ◌≢◌, false, some, arith, eq_iff, Bool-cases, inl, inr, All,
}
use luars_stoatcord.Prelude.Int.{ℤ, pos, ◌≤ℤ◌}
use luars_stoatcord.Canonical.Types.{StoatRole}
use luars_stoatcord.World.{
  Env, World, Event, requested, Request, create_role, edit_role, delete_role, put_role_permissions,
}
use luars_stoatcord.World.Exec.{pure, Preserves, bind-Preserves}
use luars_stoatcord.Stoat.Client.{
  Client, ElevationRole, is_elevation_role, call, set_role_permissions,
}
use luars_stoatcord.Stoat.Role
use luars_stoatcord.Stoat.Role.{clamp_rank}

-- A request that leaves the elevation role alone and gives no other role its rank.
abbrev pub Spares : String → Event → Type 0
Spares protected (requested (edit_role _ id _ _ rank)) = (id ≢ protected) × (pos 1 ≤ℤ rank)
Spares protected (requested (delete_role _ id)) = id ≢ protected
Spares protected (requested (put_role_permissions _ id _ _)) = id ≢ protected
Spares protected _ = Unit

abbrev AllSpared : String → World → Type 0
AllSpared protected w = All (Spares protected) w.trace

clamp_rank_lem : (r : ℤ) → pos 1 ≤ℤ clamp_rank r
unfolding clamp_rank
clamp_rank_lem r = ground arith

not_elevation :
    (c : Client) (e : ElevationRole) (id : String)
    → c.elevation ≡ some e
    → is_elevation_role c id ≡ false
    → id ≢ e.id
unfolding is_elevation_role
not_elevation c e id p h q = ground (arith, eq_iff e.id id)

pub call-AllSpared :
    (env : Env) (protected : String) (r : Request)
    → Spares protected (requested r)
    → Preserves (AllSpared protected) (call env r)
unfolding call
call-AllSpared env protected r p w h = (p, h)

module _ (env : Env) (c : Client) (e : ElevationRole) (resolved : c.elevation ≡ some e) where
  -- Once the elevation role is resolved: if no request so far edits, deletes or sets the
  -- permissions of the elevation role or edits a role to a rank below 1, then this still holds
  -- after EditRole.
  pub edit-AllSpared :
      (server id : String) (r : StoatRole) (w : World)
      → All (Spares e.id) w.trace
      → All (Spares e.id) (Role.edit env c server id r w).1.trace
  unfolding Role.edit set_role_permissions
  edit-AllSpared server id r w h = elim (Bool-cases (is_elevation_role c id)) [
    | inl p ↦ rw p h
    | inr p ↦
        let other = not_elevation c e id resolved p in
        rw p (
          bind-Preserves (AllSpared e.id) (call env (edit_role server id r.colour r.hoist _)) _
            (call-AllSpared env e.id _ (other, clamp_rank_lem r.rank))
            (λ _. call-AllSpared env e.id _ other) w h)
  ]

  -- Once the elevation role is resolved: if no request so far edits, deletes or sets the
  -- permissions of the elevation role or edits a role to a rank below 1, then this still holds
  -- after CreateRole, whatever id the server answers with.
  pub create-AllSpared :
      (server : String) (r : StoatRole) (w : World)
      → All (Spares e.id) w.trace
      → All (Spares e.id) (Role.create env c server r w).1.trace
  unfolding Role.create
  create-AllSpared server r =
      bind-Preserves (AllSpared e.id) (call env (create_role server r.name)) _
        (call-AllSpared env e.id _ tt)
        (λ id.
          bind-Preserves (AllSpared e.id) (Role.edit env c server id r) (λ _. pure id)
            (edit-AllSpared server id r) (λ _ _ h. h))

  -- Once the elevation role is resolved: if no request so far edits, deletes or sets the
  -- permissions of the elevation role or edits a role to a rank below 1, then this still holds
  -- after DeleteRole.
  pub delete-AllSpared :
      (server id : String) (w : World)
      → All (Spares e.id) w.trace
      → All (Spares e.id) (Role.delete env c server id w).1.trace
  unfolding Role.delete
  delete-AllSpared server id w h = elim (Bool-cases (is_elevation_role c id)) [
    | inl p ↦ rw p h
    | inr p ↦ rw p (call-AllSpared env e.id _ (not_elevation c e id resolved p) w h)
  ]
