-- ===== src/Engine/Scheduling/Integrity.antt =====
-- The foreign key of message_map under the schedules of internal/engine/engine.go.
use luars_stoatcord.Prelude.{true, ℕ, String, ◌≡◌, sym, subst, Bool, List, All}
use luars_stoatcord.World.{Env, World}
use luars_stoatcord.Store.View.{get-view}
use luars_stoatcord.Store.References.{write_pending-Held, confirm-Held, remove-Held, enqueue-Held}
use luars_stoatcord.Store.References.Rows.{Referential}
use luars_stoatcord.Engine.Op.{Op}
use luars_stoatcord.Engine.Retries.{KeepsStore}
use luars_stoatcord.Engine.Process.{process}
use luars_stoatcord.Engine.Interference.Alone.{nobody, process_among-nobody}
use luars_stoatcord.Engine.Interference.Preserved.{Steady, Written, process_among-On}
use luars_stoatcord.Engine.Scheduling.{Scheduler, Move, run}
use luars_stoatcord.Engine.Scheduling.Preserving
use luars_stoatcord.Engine.Scheduling.Placement.{Placed}
use luars_stoatcord.Engine.Scheduling.Placement.Moves.{SubmitsFit}

process-Referential :
    (env : Env) (on : env.foreign_keys ≡ true) (op : Op) (keeps : KeepsStore op) (dry_run : Bool)
    (w : World)
    → Referential w.store
    → Referential (process env dry_run op w).1.store
process-Referential env on op keeps dry_run w h =
    subst (λ r. Referential r.1.store) (process_among-nobody env op dry_run w)
      (process_among-On env nobody op Referential steady written dry_run w h)
  where
    steady : Steady nobody op Referential
    steady = record {
      by_others = λ n v g. g;
      by_apply = λ v g. subst Referential (sym (keeps v)) g;
    }

    written : Written env op Referential
    written = record {
      by_pending = write_pending-Held env on op.entity op.discord_id op.canonical_state;
      by_confirm = confirm-Held env on op.entity op.discord_id;
      by_remove = remove-Held env on op.entity op.discord_id;
      by_enqueue = enqueue-Held env on;
    }

pub run-Referential :
    (height : String → ℕ) (env : Env) (on : env.foreign_keys ≡ true) (dry_run : Bool)
    (ms : List Move) (s : Scheduler)
    → All (SubmitsFit height KeepsStore env dry_run) ms
    → Placed height KeepsStore s
    → Referential s.world.store
    → Referential (run env dry_run ms s).world.store
run-Referential height env on dry_run =
    Preserving.run-Sound height env dry_run KeepsStore (λ w. Referential w.store)
      (λ op keeps w h. process-Referential env on op keeps dry_run w h)
      (λ t k w h. subst Referential (sym (get-view env w t k).0) h)
