-- ===== src/Stoat/Resolved.antt =====
-- Which role ResolveElevationRole (internal/stoat/elevation.go) settles on.
use luars_stoatcord.Prelude.{
  String, ◌≡◌, refl, true, some, List, [], ◌∷◌, contains, select, Bool-cases, inl, inr,
}
use luars_stoatcord.Canonical.Result.{Result, ok, err}
use luars_stoatcord.World.{Env, World, RoleInfo, ServerInfo}
use luars_stoatcord.World.Exec.{bind-cases}
use luars_stoatcord.Stoat.Client.{Client, fetch_server, fetch_self_role_ids}
use luars_stoatcord.Stoat.Elevation.{at_rank0, wear_only, resolve_elevation_role}

-- The bot wears the only role at rank 0, whose id and allowed permissions the client keeps.
abbrev pub WornAtRank0 : List RoleInfo → List String → Client → Client → Type 0
WornAtRank0 roles worn c c' =
    (r : RoleInfo) × (select at_rank0 roles ≡ r ∷ [])
    × (contains r.id worn ≡ true)
    × (c' ≡ record c { elevation = some (record { id = r.id; permissions = r.permissions.allow }) })

-- A resolution that succeeds found the role among what the server and the member read as.
abbrev pub Resolved : Env → String → Client → World → Result Client × World → Type 0
Resolved env server c w (ok c', _) =
    (info : ServerInfo) × (worn : List String) × (fetch_server env server w).0 ≡ ok info
    × (fetch_self_role_ids env server (fetch_server env server w).1).0 ≡ ok worn
    × WornAtRank0 info.roles worn c c'
Resolved env server c w (err _, _) = Unit

module _ (env : Env) (server : String) (c : Client) (w : World) (info : ServerInfo) where
  Resolved-wear_only :
      (found : List RoleInfo)
      → (fetch_server env server w).0 ≡ ok info
      → select at_rank0 info.roles ≡ found
      → Resolved env server c w (wear_only env c server found (fetch_server env server w).1)
  unfolding wear_only
  Resolved-wear_only [] f e = tt
  Resolved-wear_only (r ∷ []) f e =
      bind-cases (Resolved env server c w) (fetch_self_role_ids env server) _
        (fetch_server env server w).1
        (λ worn g. elim (Bool-cases (contains r.id worn)) [
          | inl h ↦ rw h (info, worn, f, g, (r, e, h, refl))
          | inr h ↦ rw h tt
        ])
        (λ _ _. tt)
  Resolved-wear_only (_ ∷ _ ∷ _) f e = tt

-- ResolveElevationRole succeeds only with the one role at rank 0 of the server, which the bot wears,
-- and caches its id and its allowed permissions.
pub resolve_elevation_role-Resolved :
    (env : Env) (server : String) (c : Client) (w : World)
    → Resolved env server c w (resolve_elevation_role env c server w)
unfolding resolve_elevation_role
resolve_elevation_role-Resolved env server c w =
    bind-cases (Resolved env server c w) (fetch_server env server) _ w
      (λ info f. Resolved-wear_only env server c w info (select at_rank0 info.roles) f refl)
      (λ _ _. tt)
