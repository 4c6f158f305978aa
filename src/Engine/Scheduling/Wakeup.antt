-- ===== src/Engine/Scheduling/Wakeup.antt =====
-- The waiters of internal/engine/engine.go: how one can miss the landing of what it waits for.
use luars_stoatcord.Prelude.{
  ◌≡◌, ◌≢◌, refl, ap, ◌∙◌, String, Bool, true, false, [], ◌∷◌, ◌++◌, ◌==◌, eq_refl, arith, select,
}
use luars_stoatcord.World.{Env, World, active, EntityType, server, message}
use luars_stoatcord.Canonical.Result.{Result, ok, err}
use luars_stoatcord.Store.Laws.{same_key_refl}
use luars_stoatcord.Store.View.{view, is_message, active_status}
use luars_stoatcord.Engine.Op.{Op, OpKind, op_create, op_update, op_delete}
use luars_stoatcord.Engine.Process.{process, health_check}
use luars_stoatcord.Engine.Outcome.{Pushed, Settled, process-Settled}
use luars_stoatcord.Engine.Retries.{KeepsStore}
use luars_stoatcord.Engine.Scheduling.{
  Hand, deferring, running, landing, Worker, Scheduler, worker_for, set_hand, waits_on_other,
  key_of, defer_op, take_waiters, works, run_op, work_on, move, run,
}
use luars_stoatcord.Engine.Scheduling.Line.{worker_for-put}

module _ (env : Env) (dry_run : Bool) where
  works_lem :
      (k : String) (h : Hand) (s : Scheduler)
      → (worker_for k s).hand ≡ h
      → move env dry_run (works k) s ≡ work_on env dry_run k h s
  unfolding move
  works_lem k h s e = rw e refl

  -- Where the worker of `p` is after `p` was confirmed and the waiters were taken.
  abbrev landed : String → Op → Scheduler → Scheduler
  landed j p s = take_waiters j p (record (set_hand j (landing p) s) {
    world = (process env dry_run p s.world).1;
    ran = s.ran ++ (j, p) ∷ [];
  })

  run_op_landing :
      (j : String) (p : Op) (s : Scheduler)
      → (process env dry_run p s.world).0 ≡ ok true
      → run_op env dry_run j p s ≡ record (set_hand j (landing p) s) {
        world = (process env dry_run p s.world).1;
        ran = s.ran ++ (j, p) ∷ [];
      }
  unfolding run_op
  run_op_landing j p s e = rw e refl

  landed_world :
      (j : String) (p : Op) (s : Scheduler)
      → (landed j p s).world ≡ (process env dry_run p s.world).1
  unfolding take_waiters
  landed_world j p s = refl

  landed_other :
      (j k : String) (p : Op) (s : Scheduler)
      → (j == k) ≡ false
      → worker_for k (landed j p s) ≡ worker_for k s
  unfolding take_waiters worker_for
  landed_other j k p s e =
      worker_for-put k j _ (set_hand j (landing p) s) ∙ rw e (worker_for-put k j _ s ∙ rw e refl)

  landed_hand :
      (j : String) (p : Op) (s : Scheduler)
      → (worker_for j (record (set_hand j (landing p) s) {
        world = (process env dry_run p s.world).1;
        ran = s.ran ++ (j, p) ∷ [];
      })).hand
        ≡ landing p
  unfolding worker_for
  landed_hand j p s = rw (worker_for-put j j _ s, eq_refl j) refl

  -- Two moves of the worker of `p`, and then the one that defers `op`.
  missed_run :
      (j k : String) (p op : Op) (s : Scheduler)
      → (j == k) ≡ false
      → (worker_for j s).hand ≡ running p
      → (worker_for k s).hand ≡ deferring op (key_of p)
      → (process env dry_run p s.world).0 ≡ ok true
      → run env dry_run (works j ∷ works j ∷ works k ∷ []) s
        ≡ defer_op k op (key_of p) (landed j p s)
  unfolding run work_on
  missed_run j k p op s apart runs defers done =
      ap third (ap second first)
      ∙ ap third (works_lem j (landing p) _ (landed_hand j p s))
      ∙ works_lem k (deferring op (key_of p)) (landed j p s)
          (ap hand_of (landed_other j k p s apart) ∙ defers)
    where
      hand_of : Worker → Hand
      hand_of x = x.hand

      second : Scheduler → Scheduler
      second = move env dry_run (works j)

      third : Scheduler → Scheduler
      third = move env dry_run (works k)

      first : move env dry_run (works j) s ≡ record (set_hand j (landing p) s) {
        world = (process env dry_run p s.world).1;
        ran = s.ran ++ (j, p) ∷ [];
      }
      first = works_lem j (running p) s runs ∙ run_op_landing j p s done

active_status-row :
    (t : EntityType) (stoat_id : String) → is_message t ≡ false → active_status t stoat_id ≡ active
active_status-row server stoat_id h = refl
active_status-row message stoat_id h = ground arith
active_status-row t stoat_id h = refl

Pushed-active :
    (p : Op) (w : World) (r : Result Bool × World)
    → is_message p.entity ≡ false
    → r.0 ≡ ok true
    → Pushed p w.store r
    → (view p.entity p.discord_id r.1.store).status ≡ active
Pushed-active p w (ok true, w') row h (stoat_id, after) =
    rw (after p.entity p.discord_id, same_key_refl p.entity p.discord_id)
      (active_status-row p.entity stoat_id row)
Pushed-active p w (ok false, w') row h after = ground arith
Pushed-active p w (err e, w') row h after = ground arith

Settled-active :
    (kind : OpKind) (p : Op) (w : World) (r : Result Bool × World)
    → kind ≢ op_delete
    → is_message p.entity ≡ false
    → r.0 ≡ ok true
    → Settled kind p w.store r
    → (view p.entity p.discord_id r.1.store).status ≡ active
Settled-active op_create p w r k row h after = Pushed-active p w r row h after
Settled-active op_update p w r k row h after = Pushed-active p w r row h after
Settled-active op_delete p w r k row h after = absurd (k refl)

-- A worker that has read a dependency as unmet, and is about to defer its op, misses the landing of
-- that dependency: if another worker is about to process the op of the dependency, which is a create
-- or an update of no message and whose Apply leaves the tables alone, and with both connections up
-- and no dry run this confirms it and takes the waiters first, then the dependency is active and the
-- op waits for it. Of the ops that waited for it before, none waits any more.
pub missed_wakeup :
    (env : Env) (j k : String) (p op : Op) (s : Scheduler)
    → (j == k) ≡ false
    → (worker_for j s).hand ≡ running p
    → (worker_for k s).hand ≡ deferring op (key_of p)
    → KeepsStore p
    → p.kind ≢ op_delete
    → is_message p.entity ≡ false
    → (health_check env s.world).0 ≡ true
    → (process env false p s.world).0 ≡ ok true
    → let s' = run env false (works j ∷ works j ∷ works k ∷ []) s in
      (s'.waiters ≡ select (waits_on_other (key_of p)) s.waiters ++ (key_of p, op) ∷ [])
      × ((view p.entity p.discord_id s'.world.store).status ≡ active)
unfolding take_waiters defer_op
missed_wakeup env j k p op s apart runs defers keeps kind_lem entity up done =
    rw (missed_run env false j k p op s apart runs defers done) (
      refl,
      Settled-active p.kind p s.world (process env false p s.world) kind_lem entity done
          (process-Settled env p keeps s.world up),
    )
