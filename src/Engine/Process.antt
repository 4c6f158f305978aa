-- ===== src/Engine/Process.antt =====
-- `process` of internal/engine/engine.go with the health check of cmd/stoatcord/health.go. Logging
-- is left out: an error that is only logged ends the action.
use luars_stoatcord.Prelude.{
  ◌+◌, String, Bool, true, false, not, Option, none, some, List, [], ◌∷◌, ◌++◌, if◌then◌else◌,
}
use luars_stoatcord.Canonical.Result.{Result, ok}
use luars_stoatcord.Canonical.Json.{Json}
use luars_stoatcord.World.{Env, World}
use luars_stoatcord.World.Exec.{Exec, pure, lift, ◌>>=◌, ◌>>◌}
use luars_stoatcord.Store.{Mapping, get, write_pending, confirm, remove, enqueue}
use luars_stoatcord.Engine.Op.{OpKind, op_delete, Op, op_queue_type}
use luars_stoatcord.Engine.Remote.{run_remote}

abbrev pub unless {ℓ} : {A : Type ℓ} → Bool → A → List A → List A
unless true a as' = as'
unless false a as' = as' ++ a ∷ []

-- compositeHealthChecker.Check: the degraded connections; ok is that there are none
unfoldable pub degraded : Bool → Bool → List String
degraded discord stoat = unless stoat "stoat" (unless discord "discord" [])

abbrev pub is_empty {ℓ} : {A : Type ℓ} → List A → Bool
is_empty [] = true
is_empty (_ ∷ _) = false

-- Diff runs if the mapping is there and the op has one.
abbrev pub run_diff : Option (Json → Result Bool) → Mapping → Result Bool
run_diff none m = ok false
run_diff (some diff) m = if m.found then diff m.canonical_state else ok false

module _ (env : Env) where
  unfoldable pub health_check : World → Bool × World
  unfolding degraded
  health_check w = (
    is_empty (degraded (env.discord_ready w.asked) (env.stoat_healthy w.asked)),
    record w { asked = w.asked + 1 },
  )

  -- Whether the waiters of the op's entity are notified.
  unfoldable pub process_delete : Op → Exec World Bool
  process_delete op = do run_remote env op; remove env op.entity op.discord_id; pure false

  unfoldable pub push : Op → Exec World Bool
  push op = do
    write_pending env op.entity op.discord_id op.canonical_state
    stoat_id ← run_remote env op
    confirm env op.entity op.discord_id stoat_id
    pure true

  unfoldable pub process_update : Op → Exec World Bool
  process_update op = do
    mapping ← get env op.entity op.discord_id
    equal ← lift (run_diff op.diff mapping)
    if equal then pure false else push op

  -- logDryRun: a read of the mapping, for the log.
  unfoldable pub log_dry_run : OpKind → Op → Exec World Bool
  log_dry_run op_delete op = pure false
  log_dry_run _ op = do get env op.entity op.discord_id; pure false

  abbrev pub by_kind : OpKind → Op → Exec World Bool
  by_kind op_delete op = process_delete op
  by_kind _ op = process_update op

  unfoldable pub process : Bool → Op → Exec World Bool
  process dry_run op w =
      let (healthy, w') = health_check w in
      if not healthy
      then (do enqueue env (op_queue_type op) op.canonical_state; pure false) w'
      else if dry_run
      then log_dry_run op.kind op w'
      else by_kind op.kind op w'
