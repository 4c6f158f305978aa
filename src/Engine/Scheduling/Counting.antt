-- ===== src/Engine/Scheduling/Counting.antt =====
-- Where the ops are while internal/engine/engine.go schedules them, and what a move of a worker does
-- to their number.
use luars_stoatcord.Prelude.{
  ℕ, zero, suc, ◌+◌, ◌≡◌, refl, ap, String, Bool, true, false, Option, none, some, List, [], ◌∷◌,
  ◌++◌, ◌==◌, Bool-cases, inl, inr, arith, select, if◌then◌else◌,
}
use luars_stoatcord.Prelude.Maps.{Map, lookup, insert}
use luars_stoatcord.World.{Env}
use luars_stoatcord.Canonical.Result.{Result, ok, err}
use luars_stoatcord.Store.{get}
use luars_stoatcord.Engine.Op.{DependencyKey, Op, worker_key}
use luars_stoatcord.Engine.Process.{process}
use luars_stoatcord.Engine.Scheduling.{
  Hand, resting, checking, deferring, running, landing, releasing, Worker, Scheduler, started,
  worker_for, set_hand, has_room, push_queue, waits_on, waits_on_other, ops_of, key_of,
  after_process, nth, without_nth, deliver, send, receive, defer_op, take_waiters, finish, release,
  check_dependency, run_op, work_on, met,
}

module _ (w : Op → ℕ) where
  -- The ops of a list, each counted by its weight.
  unfoldable pub sum : List Op → ℕ
  sum [] = 0
  sum (op ∷ ops) = w op + sum ops

  abbrev pub in_hand : Hand → ℕ
  in_hand resting = 0
  in_hand (checking op _) = w op
  in_hand (deferring op _) = w op
  in_hand (running op) = w op
  in_hand (landing op) = w op
  in_hand (releasing op os) = w op + sum os

  abbrev pub at_worker : Worker → ℕ
  at_worker x = in_hand x.hand + sum x.queue

  unfoldable pub at_workers : Map Worker → ℕ
  at_workers [] = 0
  at_workers ((_, x) ∷ m) = at_worker x + at_workers m

  -- Every op that has been submitted and has not called wg.Done: with a caller of Submit, in the
  -- channel or the hand of a worker, or among the waiters.
  abbrev pub in_flight : Scheduler → ℕ
  in_flight s = sum s.callers + at_workers s.workers + sum (ops_of s.waiters)

  sum-append : (xs ys : List Op) → sum (xs ++ ys) ≡ sum xs + sum ys
  unfolding sum
  sum-append [] ys = omega arith
  sum-append (x ∷ xs) ys = omega (arith, sum-append xs ys)

  pub sum-snoc : (xs : List Op) (op : Op) → sum (xs ++ op ∷ []) ≡ sum xs + w op
  unfolding sum
  sum-snoc xs op = omega (arith, sum-append xs (op ∷ []))

  pub sum-waiters :
      (es : List (DependencyKey × Op)) (d : DependencyKey) (op : Op)
      → sum (ops_of (es ++ (d, op) ∷ [])) ≡ sum (ops_of es) + w op
  unfolding sum
  sum-waiters [] d op = omega arith
  sum-waiters ((_, o) ∷ es) d op = omega (arith, sum-waiters es d op)

  pub sum-select :
      (d : DependencyKey) (es : List (DependencyKey × Op))
      → sum (ops_of (select (waits_on d) es)) + sum (ops_of (select (waits_on_other d) es))
        ≡ sum (ops_of es)
  unfolding sum
  sum-select d [] = refl
  sum-select d (e ∷ es) = elim (Bool-cases (waits_on d e)) [
    | inl h ↦ rw h (omega (arith, sum-select d es))
    | inr h ↦ rw h (omega (arith, sum-select d es))
  ]

  pub sum-nth :
      (n : ℕ) (ops : List Op) (op : Op)
      → nth n ops ≡ some op
      → sum (without_nth n ops) + w op ≡ sum ops
  unfolding sum
  sum-nth n [] op h = ground arith
  sum-nth zero (o ∷ ops) op h = ground arith
  sum-nth (suc n) (o ∷ ops) op h = omega (arith, sum-nth n ops op h)

  at_workers-insert :
      (k : String) (x : Worker) (m : Map Worker)
      → at_workers (insert k x m) + at_worker (started (lookup k m)) ≡ at_workers m + at_worker x
  unfolding at_workers insert lookup sum
  at_workers-insert k x [] = omega arith
  at_workers-insert k x ((j, y) ∷ m) = elim (Bool-cases (j == k)) [
    | inl h ↦ rw h (omega arith)
    | inr h ↦ rw h (omega (arith, at_workers-insert k x m))
  ]

  push_queue_lem :
      (k : String) (op : Op) (s : Scheduler) → in_flight (push_queue k op s) ≡ in_flight s + w op
  unfolding worker_for
  push_queue_lem k op s = omega (
    arith,
    at_workers-insert k (record (worker_for k s) { queue = (worker_for k s).queue ++ op ∷ [] })
        s.workers,
    sum-snoc (worker_for k s).queue op,
  )

  pub set_hand_lem :
      (k : String) (h : Hand) (s : Scheduler)
      → in_flight (set_hand k h s) + in_hand (worker_for k s).hand ≡ in_flight s + in_hand h
  unfolding worker_for
  set_hand_lem k h s =
      omega (arith, at_workers-insert k (record (worker_for k s) { hand = h }) s.workers)

  -- The ops that are finished or in flight.
  abbrev pub accounted : Scheduler → ℕ
  accounted s = sum s.finished + in_flight s

  deliver_lem :
      (n : ℕ) (op : Op) (s : Scheduler)
      → nth n s.callers ≡ some op
      → accounted (deliver n op s) ≡ accounted s
  unfolding deliver
  deliver_lem n op s h =
      omega (arith, push_queue_lem (worker_key op) op s, sum-nth n s.callers op h)

  pub send_lem :
      (n : ℕ) (o : Option Op) (s : Scheduler)
      → nth n s.callers ≡ o
      → accounted (send n o s) ≡ accounted s
  send_lem n none s h = refl
  send_lem n (some op) s h = elim (Bool-cases (has_room (worker_key op) s)) [
    | inl e ↦ rw e (deliver_lem n op s h)
    | inr e ↦ rw e refl
  ]

  receive_lem :
      (k : String) (ops : List Op) (s : Scheduler)
      → (worker_for k s).hand ≡ resting
      → (worker_for k s).queue ≡ ops
      → accounted (receive k ops s) ≡ accounted s
  unfolding worker_for sum
  receive_lem k [] s h q = refl
  receive_lem k (op ∷ ops) s h q = omega (
    arith,
    at_workers-insert k (record { queue = ops; hand = checking op op.depends_on }) s.workers,
    ap in_hand h,
    ap sum q,
  )

  release_lem :
      (k : String) (op : Op) (os : List Op) (s : Scheduler)
      → (worker_for k s).hand ≡ releasing op os
      → accounted (release k op os s) ≡ accounted s
  unfolding finish sum
  release_lem k op [] s h =
      omega (arith, set_hand_lem k resting s, ap in_hand h, sum-snoc s.finished op)
  release_lem k op (o ∷ os) s h = elim (Bool-cases (has_room (worker_key o) s)) [
    | inl e ↦ rw e (
        omega (
          arith,
          push_queue_lem (worker_key o) o (set_hand k (releasing op os) s),
          set_hand_lem k (releasing op os) s,
          ap in_hand h,
        ))
    | inr e ↦ rw e refl
  ]

  take_waiters_lem :
      (k : String) (op : Op) (s : Scheduler)
      → (worker_for k s).hand ≡ landing op
      → accounted (take_waiters k op s) ≡ accounted s
  unfolding take_waiters
  take_waiters_lem k op s h = omega (
    arith,
    set_hand_lem k (releasing op (ops_of (select (waits_on (key_of op)) s.waiters))) s,
    ap in_hand h,
    sum-select (key_of op) s.waiters,
  )

  defer_op_lem :
      (k : String) (op : Op) (d : DependencyKey) (s : Scheduler)
      → (worker_for k s).hand ≡ deferring op d
      → accounted (defer_op k op d s) ≡ accounted s
  unfolding defer_op
  defer_op_lem k op d s h =
      omega (arith, set_hand_lem k resting s, ap in_hand h, sum-waiters s.waiters d op)

  same_load_lem :
      (k : String) (before after : Hand) (s : Scheduler)
      → (worker_for k s).hand ≡ before
      → in_hand before ≡ in_hand after
      → accounted (set_hand k after s) ≡ accounted s
  same_load_lem k before after s h e = omega (arith, set_hand_lem k after s, ap in_hand h)

  after_process-load : (op : Op) (r : Result Bool) → w op ≡ in_hand (after_process op r)
  unfolding sum
  after_process-load op (ok true) = refl
  after_process-load op (ok false) = omega arith
  after_process-load op (err e) = omega arith

  checked-load :
      (op : Op) (d : DependencyKey) (ds : List DependencyKey) (b : Bool)
      → w op ≡ in_hand (if b then checking op ds else deferring op d)
  checked-load op d ds true = refl
  checked-load op d ds false = refl

  module _ (env : Env) (dry_run : Bool) where
    pub work_on_lem :
        (k : String) (h : Hand) (s : Scheduler)
        → (worker_for k s).hand ≡ h
        → accounted (work_on env dry_run k h s) ≡ accounted s
    unfolding work_on check_dependency run_op
    work_on_lem k resting s h = receive_lem k (worker_for k s).queue s h refl
    work_on_lem k (checking op []) s h = same_load_lem k (checking op []) (running op) s h refl
    work_on_lem k (checking op (d ∷ ds)) s h =
        same_load_lem k (checking op (d ∷ ds)) _ s h
          (checked-load op d ds (met (get env d.entity d.discord_id s.world).0))
    work_on_lem k (deferring op d) s h = defer_op_lem k op d s h
    work_on_lem k (running op) s h =
        same_load_lem k (running op) _ s h
          (after_process-load op (process env dry_run op s.world).0)
    work_on_lem k (landing op) s h = take_waiters_lem k op s h
    work_on_lem k (releasing op os) s h = release_lem k op os s h
