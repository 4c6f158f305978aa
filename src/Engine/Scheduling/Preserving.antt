-- ===== src/Engine/Scheduling/Preserving.antt =====
-- What holds of the world under the schedules of internal/engine/engine.go, if process keeps it.
use luars_stoatcord.Prelude.{
  ℕ, String, ◌≡◌, refl, sym, subst, Bool, Option, none, some, List, [], ◌∷◌, All, Bool-cases, inl,
  inr,
}
use luars_stoatcord.World.{EntityType, Env, World}
use luars_stoatcord.World.Exec.{Preserves}
use luars_stoatcord.Store.{get}
use luars_stoatcord.Engine.Op.{Op, worker_key}
use luars_stoatcord.Engine.Process.{process}
use luars_stoatcord.Engine.Scheduling.{
  Hand, resting, checking, deferring, running, landing, releasing, Scheduler, worker_for, has_room,
  nth, submit, deliver, send, receive, defer_op, take_waiters, finish, release, Move, submits,
  sends, works, check_dependency, run_op, work_on, move, run,
}
use luars_stoatcord.Engine.Scheduling.Placement.{Placed, held}
use luars_stoatcord.Engine.Scheduling.Placement.Moves.{SubmitsFit, move-Placed}

world-send : (n : ℕ) (o : Option Op) (s : Scheduler) → (send n o s).world ≡ s.world
unfolding deliver
world-send n none s = refl
world-send n (some op) s = elim (Bool-cases (has_room (worker_key op) s)) [
  | inl r ↦ rw r refl
  | inr r ↦ rw r refl
]

world-receive : (k : String) (ops : List Op) (s : Scheduler) → (receive k ops s).world ≡ s.world
world-receive k [] s = refl
world-receive k (op ∷ ops) s = refl

world-release :
    (k : String) (op : Op) (os : List Op) (s : Scheduler) → (release k op os s).world ≡ s.world
unfolding finish
world-release k op [] s = refl
world-release k op (x ∷ xs) s = elim (Bool-cases (has_room (worker_key x) s)) [
  | inl r ↦ rw r refl
  | inr r ↦ rw r refl
]

-- A property of the world that process keeps for the ops that are `Allowed`, and a read of a mapping
-- for any key.
module _ (height : String → ℕ) (env : Env) (dry_run : Bool) (Allowed : Op → Type 0)
    (P : World → Type 0)
    (by_process : (op : Op) → Allowed op → Preserves P (process env dry_run op))
    (by_get : (t : EntityType) (k : String) → Preserves P (get env t k)) where
  abbrev Sound : Scheduler → Type 0
  Sound s = P s.world

  same-Sound : (v w : World) → w ≡ v → P v → P w
  same-Sound v w e h = subst P (sym e) h

  work-Sound :
      (k : String) (h : Hand) (s : Scheduler)
      → (worker_for k s).hand ≡ h
      → Placed height Allowed s
      → Sound s
      → Sound (work_on env dry_run k h s)
  unfolding work_on check_dependency run_op take_waiters defer_op
  work-Sound k resting s e o h = same-Sound s.world _ (world-receive k (worker_for k s).queue s) h
  work-Sound k (checking op []) s e o h = h
  work-Sound k (checking op (d ∷ ds)) s e o h = by_get d.entity d.discord_id s.world h
  work-Sound k (deferring op d) s e o h = h
  work-Sound k (running op) s e o h =
      by_process op (held height Allowed k (running op) s e o).1.1 s.world h
  work-Sound k (landing op) s e o h = h
  work-Sound k (releasing op os) s e o h = same-Sound s.world _ (world-release k op os s) h

  move-Sound :
      (m : Move) (s : Scheduler) → Placed height Allowed s → Sound s → Sound (move env dry_run m s)
  unfolding move submit
  move-Sound (submits op) s o h = h
  move-Sound (sends n) s o h = same-Sound s.world _ (world-send n (nth n s.callers) s) h
  move-Sound (works k) s o h = work-Sound k (worker_for k s).hand s refl o h

  pub run-Sound :
      (ms : List Move) (s : Scheduler)
      → All (SubmitsFit height Allowed env dry_run) ms
      → Placed height Allowed s
      → Sound s
      → Sound (run env dry_run ms s)
  unfolding run
  run-Sound [] s f o h = h
  run-Sound (m ∷ ms) s (f, fs) o h =
      run-Sound ms (move env dry_run m s) fs (move-Placed height Allowed env dry_run m s f o)
        (move-Sound m s o h)
