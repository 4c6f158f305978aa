-- ===== src/Reconcile/Live/Clamped.antt =====
-- The live pass (internal/reconcile/live.go) and the clamp of the rank in EditRole
-- (internal/stoat/role.go).
use mathlib.Core.List.{Memᴰ}
use luars_stoatcord.Prelude.{
  ◌+◌, ◌&&◌, ◌==◌, String, Bool, true, false, ◌≡◌, sym, subst, some, List, [], ◌∷◌, All, arith,
}
use luars_stoatcord.Prelude.Int.{ℤ, pos, negsuc, ◌≤ℤ◌, eq_ℤ}
use luars_stoatcord.Canonical.Result.{ok}
use luars_stoatcord.Canonical.Types.{Role, StoatRole}
use luars_stoatcord.Canonical.Emit.{role_to_stoat}
use luars_stoatcord.Canonical.State.{role_json}
use luars_stoatcord.World.{role, Env, World, Event, requested, edit_role, RoleInfo}
use luars_stoatcord.Store.{get}
use luars_stoatcord.Store.View.{view}
use luars_stoatcord.Stoat.Client.{Client, ElevationRole}
use luars_stoatcord.Stoat.Role
use luars_stoatcord.Stoat.Guard.{Spares, edit-AllSpared}
use luars_stoatcord.Discord.Compare.{role_equal, bool_equal, overwrite_equal}
use luars_stoatcord.Reconcile.Bind.{is_active, empty_canonical_state}
use luars_stoatcord.Reconcile.Live.{find_role, live_role, reconcile_role_live}
use luars_stoatcord.Reconcile.Live.Repair.{Repaired, repair_mapping-Repaired}

All-Mem : (P : Event → Type 0) (x : Event) (es : List Event) → Memᴰ x es → All P es → P x
All-Mem P x [] m h = elim m [ ]
All-Mem P x (e ∷ es) (Memᴰ.head p) (h, hs) = subst P (sym p) h
All-Mem P x (e ∷ es) (Memᴰ.tail m) (h, hs) = All-Mem P x es m hs

positive_differs : (k : ℤ) → pos 1 ≤ℤ k → eq_ℤ k (pos 0) ≡ false
positive_differs (pos n) h = ground arith
positive_differs (negsuc n) h = ground arith

rank_differs : (a b c d : Bool) → (a && (b && (c && (false && d)))) ≡ false
rank_differs a b c d = ground arith

role_equal-positive :
    (live desired : StoatRole)
    → desired.rank ≡ pos 0
    → pos 1 ≤ℤ live.rank
    → role_equal live desired ≡ false
unfolding role_equal
role_equal-positive live desired e h =
    rw (e, positive_differs live.rank h)
      (rank_differs (live.name == desired.name) (live.colour == desired.colour)
        (bool_equal live.hoist desired.hoist)
        (overwrite_equal live.permissions desired.permissions))

get_now :
    (env : Env) (k : String) (w : World)
    → env.db_fails w.asked ≡ false
    → get env role k w ≡ (ok (view role k w.store), record w { asked = w.asked + 1 })
unfolding get view
get_now env k w h = ground (arith, h)

-- For a role of position 0 whose mapping is active, and whose role on Stoat has a rank that EditRole has
-- asked for when it pushed this very role, with the elevation role resolved: the live pass never finds
-- that they agree. If it succeeds, it stores "{}" as the state of the mapping, which stays active under
-- its Stoat id, and no other mapping changes.
pub reconcile_role_live-Drifted :
    (env : Env) (c : Client) (e : ElevationRole) (server id : String) (r : Role) (w : World)
    (colour : String) (hoist : Bool) (rank : ℤ)
    → c.elevation ≡ some e
    → r.rank ≡ pos 0
    → w.trace ≡ []
    → Memᴰ
        (requested (edit_role server id colour hoist rank))
        (Role.edit env c server id (role_to_stoat r) w).1.trace
    → (live : List RoleInfo) (l : RoleInfo) (later : World)
    → is_active (view role r.id later.store) ≡ true
    → find_role live (view role r.id later.store).stoat_id ≡ some l
    → l.rank ≡ rank
    → env.db_fails later.asked ≡ false
    → Repaired role r.id empty_canonical_state
        (view role r.id later.store).stoat_id
        later.store
        (reconcile_role_live env live r later)
unfolding reconcile_role_live role_to_stoat
reconcile_role_live-Drifted env c e server id r w colour hoist rank resolved bottom start asked live
      l later active found same db =
    rw (get_now env r.id later db, active, found, drifted)
      (repair_mapping-Repaired env role r.id (view role r.id later.store).stoat_id false
        (role_json r) (record later { asked = later.asked + 1 }))
  where
    spared : All (Spares e.id) (Role.edit env c server id (role_to_stoat r) w).1.trace
    spared =
        edit-AllSpared env c e resolved server id (role_to_stoat r) w
          (subst (All (Spares e.id)) (sym start) tt)

    drifted : role_equal (live_role l) (role_to_stoat r) ≡ false
    drifted =
        role_equal-positive (live_role l) (role_to_stoat r) bottom
          (subst (λ k. pos 1 ≤ℤ k) (sym same) (All-Mem (Spares e.id) _ _ asked spared).1)
