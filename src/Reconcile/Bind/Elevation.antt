-- ===== src/Reconcile/Bind/Elevation.antt =====
-- What verifyElevationRoleUnmapped (internal/reconcile/reconcile.go) guarantees.
use luars_stoatcord.Prelude.{
  String, ◌≡◌, refl, sym, subst, ap, ◌∙◌, Bool, false, ◌&&◌, ◌==◌, List, [], ◌∷◌, All, Bool-cases,
  inl, inr,
}
use luars_stoatcord.Canonical.Result.{Result, ok, err}
use luars_stoatcord.World.{role, Env, World, Store}
use luars_stoatcord.World.Exec.{bind-cases}
use luars_stoatcord.Store.{Mapping, get}
use luars_stoatcord.Store.View.{view, get-view}
use luars_stoatcord.Reconcile.Bind.{Identity, is_active, verify_elevation_role_unmapped}

abbrev pub maps_to : String → Mapping → Bool
maps_to protected m = is_active m && m.stoat_id == protected

-- No entity of the list has an active mapping to the protected role.
abbrev pub Unmapped : String → Store → List Identity → Type 0
Unmapped protected s ds = All (λ (d : Identity). maps_to protected (view role d.id s) ≡ false) ds

-- A check that passes was right, and no check changes a table.
abbrev pub Verified : String → Store → List Identity → Result (Unit {0}) × World → Type 0
Verified protected s ds (ok _, w) = (w.store ≡ s) × Unmapped protected s ds
Verified protected s ds (err _, w) = w.store ≡ s

module _ (env : Env) (protected : String) where
  Verified-cons :
      (s : Store) (d : Identity) (ds : List Identity) (r : Result (Unit {0}) × World)
      → maps_to protected (view role d.id s) ≡ false
      → Verified protected s ds r
      → Verified protected s (d ∷ ds) r
  Verified-cons s d ds (ok _, w) e (p, h) = (p, (e, h))
  Verified-cons s d ds (err _, w) e h = h

  -- verifyElevationRoleUnmapped passes only if no role of the list has an active mapping to the
  -- protected role, and it changes no table.
  pub verify_elevation_role_unmapped-Verified :
      (ds : List Identity) (w : World)
      → Verified protected w.store ds (verify_elevation_role_unmapped env protected ds w)
  unfolding verify_elevation_role_unmapped
  verify_elevation_role_unmapped-Verified [] w = (refl, tt)
  verify_elevation_role_unmapped-Verified (d ∷ ds) w =
      bind-cases (Verified protected w.store (d ∷ ds)) (get env role d.id) _ w
        (λ m e. elim (Bool-cases (maps_to protected m)) [
          | inl t ↦ rw t same
          | inr f ↦ rw f (
              Verified-cons w.store d ds _
                (ap (maps_to protected) (sym ((get-view env w role d.id).1 m e)) ∙ f)
                (subst
                  (λ s.
                    Verified protected s ds
                      (verify_elevation_role_unmapped env protected ds (get env role d.id w).1))
                  same (verify_elevation_role_unmapped-Verified ds (get env role d.id w).1)))
        ])
        (λ _ _. same)
    where
      same : (get env role d.id w).1.store ≡ w.store
      same = (get-view env w role d.id).0
