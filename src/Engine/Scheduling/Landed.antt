-- ===== src/Engine/Scheduling/Landed.antt =====
-- When a worker of internal/engine/engine.go goes to notify the waiters of an op, the op's mapping is
-- active, whatever the other workers have done in between.
use luars_stoatcord.Prelude.{
  ℕ, String, ◌≡◌, refl, sym, ◌∙◌, subst, Bool, true, false, ◌==◌, eq_iff, Option, none, some, List,
  [], ◌∷◌, All, Bool-cases, inl, inr, arith, if◌then◌else◌,
}
use luars_stoatcord.Prelude.Maps.{lookup}
use luars_stoatcord.Canonical.Result.{Result, ok, err}
use luars_stoatcord.World.{Env, World, Store}
use luars_stoatcord.Store.{get}
use luars_stoatcord.Store.View.{same_key, get-view}
use luars_stoatcord.Engine.Op.{DependencyKey, Op, is_message, worker_key}
use luars_stoatcord.Engine.Retries.{KeepsStore}
use luars_stoatcord.Engine.Process.{process}
use luars_stoatcord.Engine.Scheduling.{
  Hand, resting, checking, deferring, running, landing, releasing, Worker, Scheduler, worker_for,
  set_hand, put_worker, push_queue, has_room, after_process, nth, submit, deliver, send, receive,
  defer_op, take_waiters, finish, release, Move, submits, sends, works, check_dependency, run_op,
  work_on, move, run, new_scheduler, met,
}
use luars_stoatcord.Engine.Scheduling.Line.{each-put}
use luars_stoatcord.Engine.Scheduling.Placement.{Placed, HandPlaced, held}
use luars_stoatcord.Engine.Scheduling.Placement.Moves.{SubmitsFit, move-Placed}
use luars_stoatcord.Engine.Scheduling.Landing.{
  IsMet, Lands, process-Lands, process-other, same_worker,
}

abbrev pub HandMet : Store → Hand → Type 0
HandMet s (landing op) = is_message op.entity ≡ false → IsMet op s
HandMet s _ = Unit

-- Every worker that is about to notify waiters finds the entity of its op active.
abbrev pub Landed : Scheduler → Type 0
Landed s = (k : String) → HandMet s.world.store (worker_for k s).hand

put-Landed :
    (k : String) (x : Worker) (s : Scheduler)
    → HandMet s.world.store x.hand
    → Landed s
    → Landed (put_worker k x s)
put-Landed k x s h l = each-put (λ j y. HandMet s.world.store y.hand) k x s h (λ j _. l j)

push-Landed : (k : String) (op : Op) (s : Scheduler) → Landed s → Landed (push_queue k op s)
push-Landed k op s l = put-Landed k _ s (l k) l

receive-Landed : (k : String) (ops : List Op) (s : Scheduler) → Landed s → Landed (receive k ops s)
receive-Landed k [] s l = l
receive-Landed k (op ∷ ops) s l = put-Landed k _ s tt l

send-Landed : (n : ℕ) (o : Option Op) (s : Scheduler) → Landed s → Landed (send n o s)
unfolding deliver worker_for
send-Landed n none s l = l
send-Landed n (some op) s l = elim (Bool-cases (has_room (worker_key op) s)) [
  | inl r ↦ rw r (push-Landed (worker_key op) op s l)
  | inr r ↦ rw r l
]

release-Landed :
    (k : String) (op : Op) (os : List Op) (s : Scheduler) → Landed s → Landed (release k op os s)
unfolding finish worker_for
release-Landed k op [] s l = put-Landed k _ s tt l
release-Landed k op (x ∷ xs) s l = elim (Bool-cases (has_room (worker_key x) s)) [
  | inl r ↦
      rw r (push-Landed (worker_key x) x (set_hand k (releasing op xs) s) (put-Landed k _ s tt l))
  | inr r ↦ rw r l
]

checked :
    (s : Store) (op : Op) (d : DependencyKey) (ds : List DependencyKey) (b : Bool)
    → HandMet s (if b then checking op ds else deferring op d)
checked s op d ds true = tt
checked s op d ds false = tt

after_process-HandMet :
    (op : Op) (r : Result Bool × World) → Lands op r → HandMet r.1.store (after_process op r.0)
after_process-HandMet op (ok true, w) h = h
after_process-HandMet op (ok false, w) h = tt
after_process-HandMet op (err e, w) h = tt

module _ (height : String → ℕ) (env : Env) (dry_run : Bool) where
  -- What another worker processes does not concern this hand.
  other-HandMet :
      (j : String) (op : Op) (h : Hand) (w : World)
      → KeepsStore op
      → (worker_key op == j) ≡ false
      → HandPlaced height KeepsStore j h
      → HandMet w.store h
      → HandMet (process env dry_run op w).1.store h
  other-HandMet j op (landing o) w keeps differs (at, _) h = λ m.
      elim (Bool-cases (same_key op.entity op.discord_id o.entity o.discord_id)) [
        | inl same ↦
            absurd
              (ground (arith, (eq_iff (worker_key op) j).1 (same_worker o op m same ∙ at), differs))
        | inr other ↦ rw (process-other env op keeps dry_run w o.entity o.discord_id other) (h m)
      ]
  other-HandMet j op resting w keeps differs at h = tt
  other-HandMet j op (checking o ds) w keeps differs at h = tt
  other-HandMet j op (deferring o d) w keeps differs at h = tt
  other-HandMet j op (running o) w keeps differs at h = tt
  other-HandMet j op (releasing o os) w keeps differs at h = tt

  run_op-Landed :
      (k : String) (op : Op) (s : Scheduler)
      → (worker_for k s).hand ≡ running op
      → Placed height KeepsStore s
      → Landed s
      → Landed (run_op env dry_run k op s)
  unfolding run_op worker_for
  run_op-Landed k op s e o l =
      each-put (λ j y. HandMet (process env dry_run op s.world).1.store y.hand) k _ s
        (after_process-HandMet op (process env dry_run op s.world)
          (process-Lands env op keeps dry_run s.world))
        (λ j differs.
          other-HandMet j op (worker_for j s).hand s.world keeps
            (subst (λ i. (i == j) ≡ false) (sym at.0) differs) (o.workers j).0 (l j))
    where
      at : HandPlaced height KeepsStore k (running op)
      at = held height KeepsStore k (running op) s e o

      keeps : KeepsStore op
      keeps = at.1.1

  check-Landed :
      (k : String) (op : Op) (d : DependencyKey) (ds : List DependencyKey) (s : Scheduler)
      → Landed s
      → Landed (check_dependency env dry_run k op d ds s)
  unfolding check_dependency worker_for
  check-Landed k op d ds s l =
      each-put (λ j y. HandMet (get env d.entity d.discord_id s.world).1.store y.hand) k _ s
        (checked _ op d ds (met (get env d.entity d.discord_id s.world).0))
        (λ j _.
          subst (λ st. HandMet st (worker_for j s).hand)
            (sym (get-view env s.world d.entity d.discord_id).0) (l j))

  work-Landed :
      (k : String) (h : Hand) (s : Scheduler)
      → (worker_for k s).hand ≡ h
      → Placed height KeepsStore s
      → Landed s
      → Landed (work_on env dry_run k h s)
  unfolding work_on take_waiters defer_op worker_for
  work-Landed k resting s e o l = receive-Landed k (worker_for k s).queue s l
  work-Landed k (checking op []) s e o l = put-Landed k _ s tt l
  work-Landed k (checking op (d ∷ ds)) s e o l = check-Landed k op d ds s l
  work-Landed k (deferring op d) s e o l = put-Landed k _ s tt l
  work-Landed k (running op) s e o l = run_op-Landed k op s e o l
  work-Landed k (landing op) s e o l = put-Landed k _ s tt l
  work-Landed k (releasing op os) s e o l = release-Landed k op os s l

  move-Landed :
      (m : Move) (s : Scheduler)
      → Placed height KeepsStore s
      → Landed s
      → Landed (move env dry_run m s)
  unfolding move submit worker_for
  move-Landed (submits op) s o l = l
  move-Landed (sends n) s o l = send-Landed n (nth n s.callers) s l
  move-Landed (works k) s o l = work-Landed k (worker_for k s).hand s refl o l

  -- If Apply of every op that is submitted leaves the tables alone, and it depends on lower layers
  -- only: after any schedule, the mapping of an op whose worker is about to notify its waiters is
  -- active, unless it is a message's.
  pub run-Landed :
      (ms : List Move) (s : Scheduler)
      → All (SubmitsFit height KeepsStore env dry_run) ms
      → Placed height KeepsStore s
      → Landed s
      → Landed (run env dry_run ms s)
  unfolding run
  run-Landed [] s h o l = l
  run-Landed (m ∷ ms) s (h, hs) o l =
      run-Landed ms (move env dry_run m s) hs (move-Placed height KeepsStore env dry_run m s h o)
        (move-Landed m s o l)

pub start-Landed : (w : World) → Landed (new_scheduler w)
unfolding new_scheduler worker_for lookup
start-Landed w k = tt
