-- ===== src/Engine/Scheduling/Waiting.antt =====
-- Engine.Wait of internal/engine/engine.go, and the ops that are deferred.
use luars_stoatcord.Prelude.{ℕ, ◌≡◌, ◌≢◌, refl, ap, String, Bool, List, [], ◌∷◌, arith, length, All}
use luars_stoatcord.Prelude.Maps.{Map, lookup}
use luars_stoatcord.World.{Env, World}
use luars_stoatcord.Engine.Op.{DependencyKey, Op}
use luars_stoatcord.Engine.Scheduling.{
  Worker, Scheduler, started, idle, worker_for, ops_of, Move, submits, sends, works, work_on, move,
  run, new_scheduler,
}
use luars_stoatcord.Engine.Scheduling.Counting.{sum, at_workers}
use luars_stoatcord.Engine.Scheduling.Conservation.{schedule-Conserved}

-- Nothing is with a caller of Submit or a worker.
pub record Quiet (s : Scheduler) : Type 0 where
  pub no_caller : s.callers ≡ []
  pub all_idle : All (λ (e : String × Worker). e.1 ≡ idle) s.workers

lookup-idle :
    (k : String) (m : Map Worker)
    → All (λ (e : String × Worker). e.1 ≡ idle) m
    → started (lookup k m) ≡ idle
unfolding lookup
lookup-idle k [] h = refl
lookup-idle k ((j, x) ∷ m) (e, h) = ground (arith, lookup-idle k m h)

at_workers-idle :
    (w : Op → ℕ) (m : Map Worker) → All (λ (e : String × Worker). e.1 ≡ idle) m → at_workers w m ≡ 0
unfolding at_workers sum
at_workers-idle w [] h = refl
at_workers-idle w ((j, x) ∷ m) (e, h) = rw e (omega (arith, at_workers-idle w m h))

sum-length : (es : List (DependencyKey × Op)) → sum (λ _. 1) (ops_of es) ≡ length es
unfolding sum
sum-length [] = refl
sum-length (e ∷ es) = omega (arith, sum-length es)

pub move-Quiet :
    (env : Env) (dry_run : Bool) (m : Move) (s : Scheduler)
    → Quiet s
    → ((op : Op) → m ≢ submits op)
    → move env dry_run m s ≡ s
unfolding move work_on worker_for
move-Quiet env dry_run (submits op) s q other = absurd (other op refl)
move-Quiet env dry_run (sends n) s q other = rw q.no_caller refl
move-Quiet env dry_run (works k) s q other =
    let still = lookup-idle k s.workers q.all_idle in
    rw still (rw (ap (λ (x : Worker). x.queue) still) refl)

-- If no op is with a caller of Submit or with a worker, then only a new submission changes
-- anything, and the counter that Wait waits for is the number of the ops that are deferred: Wait
-- returns if there is none, and else only after a new submission.
pub wg-Quiet :
    (env : Env) (dry_run : Bool) (ms : List Move) (w : World) (m : Move)
    → Quiet (run env dry_run ms (new_scheduler w))
    → ((op : Op) → m ≢ submits op)
    → let s = run env dry_run ms (new_scheduler w) in
      (s.wg ≡ length s.waiters) × (move env dry_run m s ≡ s)
unfolding sum
wg-Quiet env dry_run ms w m q other = (
  omega (
    arith,
    (schedule-Conserved env dry_run ms w).1,
    at_workers-idle (λ _. 1) _ q.all_idle,
    ap (sum (λ _. 1)) q.no_caller,
    sum-length (run env dry_run ms (new_scheduler w)).waiters,
  ),
  move-Quiet env dry_run m _ q other,
)
