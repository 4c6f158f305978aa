-- ===== src/Engine/Interference.antt =====
-- `process` of internal/engine/engine.go among other goroutines: between two calls that it makes other
-- workers change the world. `others n` is what they do at the n-th place; what they do while the
-- remote call waits or runs belongs to the op's Apply, which may be any action. Logging is left out.
pub mod Alone
pub mod Preserved
pub mod Frame
pub mod Own
use luars_stoatcord.Prelude.{ℕ, String, ◌≡◌, Bool, false, true, not, if◌then◌else◌}
use luars_stoatcord.Canonical.Result.{ok}
use luars_stoatcord.World.{EntityType, Env, World}
use luars_stoatcord.World.Exec.{Exec, pure, lift, ◌>>=◌, ◌>>◌}
use luars_stoatcord.Store.{Mapping, get, write_pending, confirm, remove, enqueue}
use luars_stoatcord.Store.View.{view}
use luars_stoatcord.Engine.Op.{OpKind, op_delete, Op, op_queue_type}
use luars_stoatcord.Engine.Remote.{run_remote}
use luars_stoatcord.Engine.Process.{run_diff, health_check, log_dry_run}

module _ (env : Env) (others : ℕ → World → World) where
  abbrev pub meanwhile : ℕ → Exec World (Unit {0})
  meanwhile n w = (ok tt, others n w)

  abbrev pub forget_among : Op → Exec World Bool
  forget_among op = do meanwhile 4; remove env op.entity op.discord_id; pure false

  unfoldable pub delete_among : Op → Exec World Bool
  delete_among op = do run_remote env op; forget_among op

  abbrev pub confirm_among : Op → String → Exec World Bool
  confirm_among op stoat_id = do
    meanwhile 3
    confirm env op.entity op.discord_id stoat_id
    pure true

  abbrev pub send_among : Op → Exec World Bool
  send_among op = do meanwhile 2; stoat_id ← run_remote env op; confirm_among op stoat_id

  unfoldable pub push_among : Op → Exec World Bool
  push_among op = do write_pending env op.entity op.discord_id op.canonical_state; send_among op

  abbrev pub push_unless : Op → Bool → Exec World Bool
  push_unless op equal = if equal then pure false else push_among op

  abbrev pub compare_among : Op → Mapping → Exec World Bool
  compare_among op mapping = do
    meanwhile 1
    equal ← lift (run_diff op.diff mapping)
    push_unless op equal

  unfoldable pub update_among : Op → Exec World Bool
  update_among op = do mapping ← get env op.entity op.discord_id; compare_among op mapping

  abbrev pub by_kind_among : OpKind → Op → Exec World Bool
  by_kind_among op_delete op = delete_among op
  by_kind_among _ op = update_among op

  unfoldable pub process_among : Bool → Op → Exec World Bool
  process_among dry_run op w =
      let (healthy, w') = health_check env w in
      if not healthy
      then (do meanwhile 0; enqueue env (op_queue_type op) op.canonical_state; pure false) w'
      else if dry_run
      then (do meanwhile 0; log_dry_run env op.kind op) w'
      else (do meanwhile 0; by_kind_among op.kind op) w'

-- Neither the others nor Apply change the mapping of this key.
pub record Undisturbed (others : ℕ → World → World) (op : Op) (t : EntityType) (k : String)
    : Type 0 where
  pub by_others : (n : ℕ) (w : World) → view t k (others n w).store ≡ view t k w.store
  pub by_apply : (w : World) → view t k (op.apply w).1.store ≡ view t k w.store
