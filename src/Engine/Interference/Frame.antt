-- ===== src/Engine/Interference/Frame.antt =====
-- `process` of internal/engine/engine.go among other goroutines, and the mappings of other keys than
-- its op's.
use luars_stoatcord.Prelude.{ℕ, String, ◌≡◌, refl, ◌∙◌, Bool, false, Bool-cases, inl, inr, arith}
use luars_stoatcord.Canonical.Result.{Result, ok, err}
use luars_stoatcord.Canonical.Json.{Json}
use luars_stoatcord.World.{EntityType, Env, World, Store}
use luars_stoatcord.World.Exec.{Preserves}
use luars_stoatcord.Store.{Mapping, no_mapping, enqueue, statement}
use luars_stoatcord.Store.View.{view, same_key, replaced, Outcome}
use luars_stoatcord.Store.Laws.{write_pending-Outcome, confirm-Outcome, remove-Outcome}
use luars_stoatcord.Store.Refinement.{view-queue}
use luars_stoatcord.Engine.Op.{Op}
use luars_stoatcord.Engine.Interference.{process_among, Undisturbed}
use luars_stoatcord.Engine.Interference.Preserved.{On, Steady, Written, process_among-On}

-- The mapping of a key is `m`.
abbrev pub IsAt : EntityType → String → Mapping → Store → Type 0
IsAt t k m s = view t k s ≡ m

written-IsAt :
    (t0 : EntityType) (k0 : String) (x : Mapping) (t : EntityType) (k : String) (m : Mapping)
    (p : Result (Unit {0}) × World) (s : Store)
    → same_key t0 k0 t k ≡ false
    → Outcome p s (replaced t0 k0 x s)
    → view t k s ≡ m
    → view t k p.1.store ≡ m
written-IsAt t0 k0 x t k m (ok y, w) s other h e = ground (arith, h t k, other, e)
written-IsAt t0 k0 x t k m (err y, w) s other h e = rw h e

module _ (env : Env) (op : Op) (t : EntityType) (k : String) (m : Mapping) where
  pub IsAt-Steady :
      (others : ℕ → World → World) → Undisturbed others op t k → Steady others op (IsAt t k m)
  IsAt-Steady others u = record {
    by_others = λ n w h. u.by_others n w ∙ h;
    by_apply = λ w h. u.by_apply w ∙ h;
  }

  enqueue-IsAt : (s : String) (j : Json) → Preserves (On (IsAt t k m)) (enqueue env s j)
  unfolding enqueue statement
  enqueue-IsAt s j w h = elim (Bool-cases (env.db_fails w.asked)) [
    | inl e ↦ rw e h
    | inr e ↦ rw e (view-queue _ w.store t k ∙ h)
  ]

  IsAt-Written : same_key op.entity op.discord_id t k ≡ false → Written env op (IsAt t k m)
  IsAt-Written other = record {
    by_pending = λ w h.
        written-IsAt op.entity op.discord_id _ t k m _ w.store other
          (write_pending-Outcome env w op.entity op.discord_id op.canonical_state) h;
    by_confirm = λ stoat_id w h.
        written-IsAt op.entity op.discord_id _ t k m _ w.store other
          (confirm-Outcome env w op.entity op.discord_id stoat_id) h;
    by_remove = λ w h.
        written-IsAt op.entity op.discord_id no_mapping t k m _ w.store other
          (remove-Outcome env w op.entity op.discord_id) h;
    by_enqueue = enqueue-IsAt;
  }

-- Whatever happens meanwhile, and however it ends, `process` leaves the mapping of a key that is not
-- its op's as it was, provided that neither the others nor Apply change it.
pub process_among-IsAt :
    (env : Env) (others : ℕ → World → World) (op : Op) (t : EntityType) (k : String) (m : Mapping)
    → Undisturbed others op t k
    → same_key op.entity op.discord_id t k ≡ false
    → (dry_run : Bool) (w : World) → view t k w.store ≡ m
    → view t k (process_among env others dry_run op w).1.store ≡ m
process_among-IsAt env others op t k m u other dry_run w h =
    process_among-On env others op (IsAt t k m) (IsAt-Steady env op t k m others u)
      (IsAt-Written env op t k m other) dry_run w h

-- Another worker that processes an op of another key leaves the key undisturbed, whoever disturbs it.
pub process_among-Undisturbed :
    (env : Env) (others : ℕ → World → World) (dry_run : Bool) (op other : Op) (t : EntityType)
    (k : String)
    → Undisturbed others other t k
    → same_key other.entity other.discord_id t k ≡ false
    → ((w : World) → view t k (op.apply w).1.store ≡ view t k w.store)
    → Undisturbed (λ n w. (process_among env others dry_run other w).1) op t k
process_among-Undisturbed env others dry_run op other t k u differs apply = record {
  by_others =
      λ n w. process_among-IsAt env others other t k (view t k w.store) u differs dry_run w refl;
  by_apply = apply;
}
