-- ===== src/Engine/Scheduling/Placement/Moves.antt =====
-- The moves of internal/engine/engine.go keep the ops where they belong.
use luars_stoatcord.Prelude.{ℕ, ◌≡◌, refl, String, Bool, List, [], ◌∷◌, All}
use luars_stoatcord.Prelude.Maps.{lookup}
use luars_stoatcord.World.{Env, World}
use luars_stoatcord.Store.{get}
use luars_stoatcord.Engine.Op.{Op}
use luars_stoatcord.Engine.Process.{process}
use luars_stoatcord.Engine.Scheduling.{
  Hand, resting, checking, deferring, running, landing, releasing, Scheduler, worker_for, nth,
  submit, Move, submits, sends, works, check_dependency, run_op, work_on, move, run, new_scheduler,
  met,
}
use luars_stoatcord.Engine.Scheduling.Placement.{
  Fit, Placed, held, keep-Placed, receive-Placed, hand-Placed, checked-Placed, after_process-Placed,
  defer-Placed, take-Placed, release-Placed, send-Placed, All-snoc,
}

module _ (height : String → ℕ) (Q : Op → Type 0) (env : Env) (dry_run : Bool) where
  work-Placed :
      (k : String) (h : Hand) (s : Scheduler)
      → (worker_for k s).hand ≡ h
      → Placed height Q s
      → Placed height Q (work_on env dry_run k h s)
  unfolding work_on check_dependency run_op
  work-Placed k resting s e o = receive-Placed height Q k (worker_for k s).queue s refl o
  work-Placed k (checking op []) s e o =
      hand-Placed height Q k (running op) s (held height Q k _ s e o).0 o
  work-Placed k (checking op (d ∷ ds)) s e o = keep-Placed height Q _ _ refl refl refl (
      hand-Placed height Q k _ s
        (checked-Placed height Q k op d ds (met (get env d.entity d.discord_id s.world).0)
          (held height Q k _ s e o))
        o)
  work-Placed k (deferring op d) s e o = defer-Placed height Q k op d s e o
  work-Placed k (running op) s e o = keep-Placed height Q _ _ refl refl refl (
      hand-Placed height Q k _ s
        (after_process-Placed height Q k op (process env dry_run op s.world).0
          (held height Q k _ s e o))
        o)
  work-Placed k (landing op) s e o = take-Placed height Q k op s e o
  work-Placed k (releasing op os) s e o = release-Placed height Q k op os s e o

  submit-Placed :
      (op : Op) (s : Scheduler)
      → Fit height Q op
      → Placed height Q s
      → Placed height Q (submit op s)
  unfolding submit worker_for
  submit-Placed op s l o = record {
    callers = All-snoc height Q (Fit height Q) s.callers op o.callers l;
    workers = o.workers;
    waiters = o.waiters;
  }

  -- What is submitted depends on lower layers only.
  abbrev pub SubmitsFit : Move → Type 0
  SubmitsFit (submits op) = Fit height Q op
  SubmitsFit _ = Unit

  pub move-Placed :
      (m : Move) (s : Scheduler)
      → SubmitsFit m
      → Placed height Q s
      → Placed height Q (move env dry_run m s)
  unfolding move
  move-Placed (submits op) s l o = submit-Placed op s l o
  move-Placed (sends n) s l o = send-Placed height Q n (nth n s.callers) s refl o
  move-Placed (works k) s l o = work-Placed k (worker_for k s).hand s refl o

  pub run-Placed :
      (ms : List Move) (s : Scheduler)
      → All SubmitsFit ms
      → Placed height Q s
      → Placed height Q (run env dry_run ms s)
  unfolding run
  run-Placed [] s l o = o
  run-Placed (m ∷ ms) s (l, ls) o = run-Placed ms (move env dry_run m s) ls (move-Placed m s l o)

pub start-Placed :
    (height : String → ℕ) (Q : Op → Type 0) (w : World) → Placed height Q (new_scheduler w)
unfolding new_scheduler worker_for lookup
start-Placed height Q w = record { callers = tt; workers = λ k. (tt, tt); waiters = tt }
