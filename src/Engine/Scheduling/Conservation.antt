-- ===== src/Engine/Scheduling/Conservation.antt =====
-- Whatever the order of the moves of internal/engine/engine.go, no op is lost or finished twice, and
-- the WaitGroup counts those that are left.
use luars_stoatcord.Prelude.{
  ℕ, ◌+◌, ◌≡◌, refl, ap, String, Bool, Option, none, some, List, [], ◌∷◌, arith,
}
use luars_stoatcord.Engine.Scheduling.{
  Hand, resting, checking, deferring, running, landing, releasing, Scheduler, worker_for, nth,
  submit, deliver, send, defer_op, take_waiters, finish, Move, submits, sends, works,
  check_dependency, run_op, work_on, move, run, new_scheduler,
}
use luars_stoatcord.World.{Env, World}
use luars_stoatcord.Engine.Op.{Op}
use luars_stoatcord.Engine.Scheduling.Counting.{
  sum, at_workers, in_hand, in_flight, sum-snoc, set_hand_lem, send_lem, work_on_lem,
}

abbrev one : Op → ℕ
one op = 1

-- Each op has been finished or is in flight as often as it was submitted, and `wg` is the number
-- of those in flight.
abbrev pub Conserved : Scheduler → Type 0
Conserved s =
    ((w : Op → ℕ) → sum w s.submitted ≡ sum w s.finished + in_flight w s)
    × (s.wg ≡ in_flight (λ _. 1) s)

module _ (env : Env) (dry_run : Bool) where
  submitted-work_on :
      (k : String) (h : Hand) (s : Scheduler) → (work_on env dry_run k h s).submitted ≡ s.submitted
  unfolding work_on check_dependency run_op defer_op take_waiters finish
  submitted-work_on k resting s = ground arith
  submitted-work_on k (checking op []) s = refl
  submitted-work_on k (checking op (d ∷ ds)) s = refl
  submitted-work_on k (deferring op d) s = refl
  submitted-work_on k (running op) s = refl
  submitted-work_on k (landing op) s = refl
  submitted-work_on k (releasing op []) s = refl
  submitted-work_on k (releasing op (o ∷ os)) s = ground arith

  wg-work_on :
      (k : String) (h : Hand) (s : Scheduler)
      → (worker_for k s).hand ≡ h
      → s.wg ≡ in_flight one s
      → (work_on env dry_run k h s).wg + sum one (work_on env dry_run k h s).finished
        ≡ s.wg + sum one s.finished
  unfolding work_on check_dependency run_op defer_op take_waiters finish
  wg-work_on k resting s h c = ground arith
  wg-work_on k (checking op []) s h c = refl
  wg-work_on k (checking op (d ∷ ds)) s h c = refl
  wg-work_on k (deferring op d) s h c = refl
  wg-work_on k (running op) s h c = refl
  wg-work_on k (landing op) s h c = refl
  wg-work_on k (releasing op []) s h c =
      omega (arith, set_hand_lem one k resting s, ap (in_hand one) h, sum-snoc one s.finished op)
  wg-work_on k (releasing op (o ∷ os)) s h c = ground arith

  submitted-send :
      (n : ℕ) (o : Option Op) (s : Scheduler)
      → ((send n o s).submitted ≡ s.submitted)
        × ((send n o s).wg ≡ s.wg)
        × ((send n o s).finished ≡ s.finished)
  unfolding deliver
  submitted-send n none s = (refl, refl, refl)
  submitted-send n (some op) s = ground arith

  work-Conserved :
      (k : String) (h : Hand) (s : Scheduler)
      → (worker_for k s).hand ≡ h
      → Conserved s
      → Conserved (work_on env dry_run k h s)
  work-Conserved k h s e (each, counted) =
      (balance, omega (arith, wg-work_on k h s e counted, work_on_lem one env dry_run k h s e))
    where
      balance :
          (w : Op → ℕ)
          → sum w (work_on env dry_run k h s).submitted
            ≡ sum w (work_on env dry_run k h s).finished + in_flight w (work_on env dry_run k h s)
      balance w =
          omega
            (arith, ap (sum w) (submitted-work_on k h s), work_on_lem w env dry_run k h s e, each w)

  send-Conserved :
      (n : ℕ) (o : Option Op) (s : Scheduler)
      → nth n s.callers ≡ o
      → Conserved s
      → Conserved (send n o s)
  send-Conserved n o s e (each, counted) = (
    λ w. omega (arith, ap (sum w) (submitted-send n o s).0, send_lem w n o s e, each w),
    omega (
      arith,
      (submitted-send n o s).1,
      ap (sum one) (submitted-send n o s).2,
      send_lem one n o s e,
      counted,
    ),
  )

  submit-Conserved : (op : Op) (s : Scheduler) → Conserved s → Conserved (submit op s)
  unfolding submit
  submit-Conserved op s (each, counted) = (
    λ w. omega (arith, each w, sum-snoc w s.submitted op, sum-snoc w s.callers op),
    omega (arith, counted, sum-snoc one s.callers op),
  )

  move-Conserved : (m : Move) (s : Scheduler) → Conserved s → Conserved (move env dry_run m s)
  unfolding move
  move-Conserved (submits op) s c = submit-Conserved op s c
  move-Conserved (sends n) s c = send-Conserved n (nth n s.callers) s refl c
  move-Conserved (works k) s c = work-Conserved k (worker_for k s).hand s refl c

  run-Conserved : (ms : List Move) (s : Scheduler) → Conserved s → Conserved (run env dry_run ms s)
  unfolding run
  run-Conserved [] s c = c
  run-Conserved (m ∷ ms) s c = run-Conserved ms (move env dry_run m s) (move-Conserved m s c)

  start-Conserved : (w : World) → Conserved (new_scheduler w)
  unfolding new_scheduler sum at_workers
  start-Conserved w = (λ f. omega arith, omega arith)

  -- Whatever the moves and their order: each op has been finished or is in flight as often as it
  -- was submitted, and the counter of Wait is the number of those in flight.
  pub schedule-Conserved :
      (ms : List Move) (w : World) → Conserved (run env dry_run ms (new_scheduler w))
  schedule-Conserved ms w = run-Conserved ms (new_scheduler w) (start-Conserved w)
