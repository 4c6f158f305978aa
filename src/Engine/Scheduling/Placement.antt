-- ===== src/Engine/Scheduling/Placement.antt =====
-- Where the ops of internal/engine/engine.go stand, if what an op depends on is processed in a lower
-- layer. `height` gives each worker's key its layer.
pub mod Moves
use luars_stoatcord.Prelude.{
  ℕ, zero, suc, ◌<◌, ◌≡◌, refl, subst, String, Bool, true, false, Option, none, some, List, [], ◌∷◌,
  ◌++◌, All, select, Bool-cases, inl, inr, arith, if◌then◌else◌,
}
use luars_stoatcord.Prelude.Maps.{lookup}
use luars_stoatcord.Canonical.Result.{Result, ok, err}
use luars_stoatcord.World.{Env, World}
use luars_stoatcord.Store.{get}
use luars_stoatcord.Engine.Op.{DependencyKey, Op, worker_key}
use luars_stoatcord.Engine.Process.{process}
use luars_stoatcord.Engine.Scheduling.{
  Hand, resting, checking, deferring, running, landing, releasing, Worker, Scheduler, worker_for,
  set_hand, put_worker, push_queue, has_room, same_dependency, waits_on, waits_on_other, ops_of,
  key_of, after_process, nth, without_nth, submit, deliver, send, receive, defer_op, take_waiters,
  finish, release, Move, submits, sends, works, check_dependency, run_op, work_on, move, run,
  new_scheduler, met,
}
use luars_stoatcord.Engine.Scheduling.Line.{each-put}

module _ (height : String → ℕ) where
  -- An op that lands with this dependency is processed in a lower layer than `op`.
  abbrev pub Blocks : Op → DependencyKey → Type 0
  Blocks op d =
      (p : Op)
      → same_dependency d (key_of p) ≡ true
      → height (worker_key p) < height (worker_key op)

  abbrev pub Layered : Op → Type 0
  Layered op = All (Blocks op) op.depends_on

module _ (height : String → ℕ) (Q : Op → Type 0) where
  -- An op that depends on lower layers only, and of which `Q` holds
  abbrev pub Fit : Op → Type 0
  Fit op = Layered height op × Q op

  -- An op of the worker of `k`
  abbrev pub At : String → Op → Type 0
  At k op = (worker_key op ≡ k) × Fit op

  abbrev pub Above : String → Op → Type 0
  Above k op = Fit op × (height k < height (worker_key op))

  abbrev pub HandPlaced : String → Hand → Type 0
  HandPlaced k resting = Unit
  HandPlaced k (checking op ds) = At k op × All (Blocks height op) ds
  HandPlaced k (deferring op d) = At k op × Blocks height op d
  HandPlaced k (running op) = At k op
  HandPlaced k (landing op) = At k op
  HandPlaced k (releasing op os) = At k op × All (Above k) os

  abbrev pub WorkerPlaced : String → Worker → Type 0
  WorkerPlaced k x = HandPlaced k x.hand × All (At k) x.queue

  abbrev Waits : DependencyKey × Op → Type 0
  Waits e = Fit e.1 × Blocks height e.1 e.0

  -- Each op stands with the worker of its key, and who is about to be released is in a higher layer.
  pub record Placed (s : Scheduler) : Type 0 where
    pub callers : All Fit s.callers
    pub workers : (k : String) → WorkerPlaced k (worker_for k s)
    pub waiters : All Waits s.waiters

  pub All-snoc {ℓ κ} :
      {A : Type ℓ} (P : A → Type κ) (xs : List A) (x : A) → All P xs → P x → All P (xs ++ x ∷ [])
  All-snoc P [] x h p = (p, tt)
  All-snoc P (y ∷ ys) x (h, hs) p = (h, All-snoc P ys x hs p)

  pub keep-Placed :
      (s t : Scheduler)
      → t.callers ≡ s.callers
      → t.workers ≡ s.workers
      → t.waiters ≡ s.waiters
      → Placed s
      → Placed t
  unfolding worker_for
  keep-Placed s t p q r o = record {
    callers = rw p o.callers;
    workers = λ k. rw q (o.workers k);
    waiters = rw r o.waiters;
  }

  put-Placed :
      (k : String) (x : Worker) (s : Scheduler)
      → WorkerPlaced k x
      → Placed s
      → Placed (put_worker k x s)
  put-Placed k x s h o = record {
    callers = o.callers;
    workers = each-put WorkerPlaced k x s h (λ j _. o.workers j);
    waiters = o.waiters;
  }

  pub hand-Placed :
      (k : String) (h : Hand) (s : Scheduler) → HandPlaced k h → Placed s → Placed (set_hand k h s)
  hand-Placed k h s p o = put-Placed k _ s (p, (o.workers k).1) o

  push-Placed :
      (op : Op) (s : Scheduler) → Fit op → Placed s → Placed (push_queue (worker_key op) op s)
  push-Placed op s l o =
      put-Placed (worker_key op) _ s
        (
          (o.workers (worker_key op)).0,
          All-snoc (At (worker_key op)) _ op (o.workers (worker_key op)).1 (refl, l),
        )
        o

  pub held :
      (k : String) (h : Hand) (s : Scheduler)
      → (worker_for k s).hand ≡ h
      → Placed s
      → HandPlaced k h
  held k h s e o = subst (HandPlaced k) e (o.workers k).0

  pub receive-Placed :
      (k : String) (ops : List Op) (s : Scheduler)
      → (worker_for k s).queue ≡ ops
      → Placed s
      → Placed (receive k ops s)
  receive-Placed k [] s q o = o
  receive-Placed k (op ∷ ops) s q o =
      let (p, ps) = subst (All (At k)) q (o.workers k).1 in put-Placed k _ s ((p, p.1.0), ps) o

  nth-Fit :
      (n : ℕ) (ops : List Op) (op : Op)
      → nth n ops ≡ some op
      → All Fit ops
      → Fit op × All Fit (without_nth n ops)
  nth-Fit n [] op e h = absurd (ground arith)
  nth-Fit zero (o ∷ ops) op e (h, hs) = (subst Fit (ground arith) h, hs)
  nth-Fit (suc n) (o ∷ ops) op e (h, hs) = let (p, ps) = nth-Fit n ops op e hs in (p, (h, ps))

  pub send-Placed :
      (n : ℕ) (o : Option Op) (s : Scheduler) → nth n s.callers ≡ o → Placed s → Placed (send n o s)
  unfolding deliver worker_for
  send-Placed n none s e o = o
  send-Placed n (some op) s e o = elim (Bool-cases (has_room (worker_key op) s)) [
    | inl r ↦ rw r (delivered (push-Placed op s (nth-Fit n s.callers op e o.callers).0 o))
    | inr r ↦ rw r o
  ]
    where
      delivered : Placed (push_queue (worker_key op) op s) → Placed (deliver n op s)
      delivered q = record {
        callers = (nth-Fit n s.callers op e o.callers).1;
        workers = q.workers;
        waiters = q.waiters;
      }

  pub release-Placed :
      (k : String) (op : Op) (os : List Op) (s : Scheduler)
      → (worker_for k s).hand ≡ releasing op os
      → Placed s
      → Placed (release k op os s)
  unfolding finish
  release-Placed k op [] s e o =
      keep-Placed (set_hand k resting s) (finish k op s) refl refl refl
        (hand-Placed k resting s tt o)
  release-Placed k op (x ∷ xs) s e o = elim (Bool-cases (has_room (worker_key x) s)) [
    | inl r ↦ rw r (
        push-Placed x (set_hand k (releasing op xs) s) l.0
          (hand-Placed k (releasing op xs) s (at, ls) o))
    | inr r ↦ rw r o
  ]
    where
      at : At k op
      at = (held k (releasing op (x ∷ xs)) s e o).0

      l : Above k x
      l = (held k (releasing op (x ∷ xs)) s e o).1.0

      ls : All (Above k) xs
      ls = (held k (releasing op (x ∷ xs)) s e o).1.1

  waiting-Above :
      (k : String) (op : Op) (es : List (DependencyKey × Op))
      → worker_key op ≡ k
      → All Waits es
      → All (Above k) (ops_of (select (waits_on (key_of op)) es))
  waiting-Above k op [] h w = tt
  waiting-Above k op ((d, o) ∷ es) h ((l, b), ws) =
      elim (Bool-cases (same_dependency d (key_of op))) [
        | inl e ↦ rw e ((l, rw (← h) (b op e)), waiting-Above k op es h ws)
        | inr e ↦ rw e (waiting-Above k op es h ws)
      ]

  All-select {ℓ κ} :
      {A : Type ℓ} (P : A → Type κ) (p : A → Bool) (xs : List A) → All P xs → All P (select p xs)
  All-select P p [] h = tt
  All-select P p (x ∷ xs) (h, hs) = elim (Bool-cases (p x)) [
    | inl e ↦ rw e (h, All-select P p xs hs)
    | inr e ↦ rw e (All-select P p xs hs)
  ]

  pub take-Placed :
      (k : String) (op : Op) (s : Scheduler)
      → (worker_for k s).hand ≡ landing op
      → Placed s
      → Placed (take_waiters k op s)
  unfolding take_waiters worker_for
  take-Placed k op s e o =
      let (at, l) = held k (landing op) s e o in
      let q =
        hand-Placed k (releasing op (ops_of (select (waits_on (key_of op)) s.waiters))) s
          ((at, l), waiting-Above k op s.waiters at o.waiters) o in
      record {
        callers = q.callers;
        workers = q.workers;
        waiters = All-select Waits (waits_on_other (key_of op)) s.waiters o.waiters;
      }

  pub defer-Placed :
      (k : String) (op : Op) (d : DependencyKey) (s : Scheduler)
      → (worker_for k s).hand ≡ deferring op d
      → Placed s
      → Placed (defer_op k op d s)
  unfolding defer_op worker_for
  defer-Placed k op d s e o =
      let ((at, l), b) = held k (deferring op d) s e o in
      let q = hand-Placed k resting s tt o in
      record {
        callers = q.callers;
        workers = q.workers;
        waiters = All-snoc Waits s.waiters (d, op) o.waiters (l, b);
      }

  pub checked-Placed :
      (k : String) (op : Op) (d : DependencyKey) (ds : List DependencyKey) (b : Bool)
      → HandPlaced k (checking op (d ∷ ds))
      → HandPlaced k (if b then checking op ds else deferring op d)
  checked-Placed k op d ds true (at, (h, hs)) = (at, hs)
  checked-Placed k op d ds false (at, (h, hs)) = (at, h)

  pub after_process-Placed :
      (k : String) (op : Op) (r : Result Bool) → At k op → HandPlaced k (after_process op r)
  after_process-Placed k op (ok true) h = h
  after_process-Placed k op (ok false) h = (h, tt)
  after_process-Placed k op (err e) h = (h, tt)
