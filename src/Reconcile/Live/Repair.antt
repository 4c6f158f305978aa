-- ===== src/Reconcile/Live/Repair.antt =====
-- What the live pass (internal/reconcile/live.go) does to the mapping table.
use luars_stoatcord.Prelude.{String, Bool, if◌then◌else◌}
use luars_stoatcord.Canonical.Result.{Result, ok, err}
use luars_stoatcord.Canonical.Json.{Json}
use luars_stoatcord.World.{EntityType, Env, World, Store}
use luars_stoatcord.World.Exec.{bind-cases}
use luars_stoatcord.Store.{write_pending, confirm}
use luars_stoatcord.Store.Laws.{
  Outcome-ok, write_pending-Outcome, confirm-Outcome, Replaced, active_mapping,
  active-after-pending,
}
use luars_stoatcord.Store.View.{mark_pending, mark_active, replaced, view, Outcome}
use luars_stoatcord.Reconcile.Bind.{empty_canonical_state}
use luars_stoatcord.Reconcile.Live.{repair_mapping}

-- The outcome of a repair that succeeds: the mapping is active again under the same Stoat id.
abbrev pub Repaired :
    EntityType → String → Json → String → Store → Result (Unit {0}) × World → Type 0
Repaired t k state stoat_id s (ok _, w) = Replaced t k (active_mapping t state stoat_id) s w.store
Repaired t k state stoat_id s (err _, w) = Unit

Repaired-confirmed :
    (t : EntityType) (k : String) (state : Json) (stoat_id : String) (s s1 : Store)
    (q : Result (Unit {0}) × World)
    → Replaced t k (mark_pending t state (view t k s)) s s1
    → Outcome q s1 (replaced t k (mark_active t stoat_id (view t k s1)) s1)
    → Repaired t k state stoat_id s q
Repaired-confirmed t k state stoat_id s s1 (ok _, w) h1 h2 =
    active-after-pending t k state stoat_id s s1 w.store h1 h2
Repaired-confirmed t k state stoat_id s s1 (err _, w) h1 h2 = tt

module _ (env : Env) where
  -- A repair that succeeds leaves the mapping active under the given Stoat id, with the desired
  -- state on a match and with "{}" otherwise, and no other mapping changed.
  pub repair_mapping-Repaired :
      (t : EntityType) (k stoat_id : String) (matches : Bool) (desired : Json) (w : World)
      → Repaired t k
          (if matches then desired else empty_canonical_state)
          stoat_id
          w.store
          (repair_mapping env t k stoat_id matches desired w)
  unfolding repair_mapping
  repair_mapping-Repaired t k stoat_id matches desired w =
      bind-cases (Repaired t k state stoat_id w.store) (write_pending env t k state)
        (λ _. confirm env t k stoat_id) w
        (λ x e.
          Repaired-confirmed t k state stoat_id w.store (write_pending env t k state w).1.store
            (confirm env t k stoat_id (write_pending env t k state w).1)
            (Outcome-ok _ _ _ x e (write_pending-Outcome env w t k state))
            (confirm-Outcome env (write_pending env t k state w).1 t k stoat_id))
        (λ _ _. tt)
    where
      state : Json
      state = if matches then desired else empty_canonical_state
