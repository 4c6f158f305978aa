-- ===== src/Engine/Scheduling/Order.antt =====
-- The order in which a worker of internal/engine/engine.go processes the ops of its key.
use luars_stoatcord.Prelude.{
  ℕ, ◌≡◌, refl, subst, String, Bool, true, false, Option, none, some, List, [], ◌∷◌, ◌++◌,
  Bool-cases, inl, inr, arith, if◌then◌else◌,
}
use luars_stoatcord.Engine.Scheduling.{
  Hand, resting, checking, deferring, running, landing, releasing, Scheduler, worker_for, set_hand,
  has_room, after_process, nth, submit, deliver, send, receive, defer_op, take_waiters, finish,
  release, Move, submits, sends, works, check_dependency, run_op, work_on, move, run, new_scheduler,
  met,
}
use luars_stoatcord.Canonical.Result.{Result, ok, err}
use luars_stoatcord.Store.{get}
use luars_stoatcord.Prelude.Maps.{lookup}
use luars_stoatcord.World.{Env, World}
use luars_stoatcord.Engine.Op.{DependencyKey, Op, worker_key}
use luars_stoatcord.Engine.Process.{process}
use luars_stoatcord.Engine.Limiter.Buckets.{of_key}
use luars_stoatcord.Engine.Scheduling.Line.{
  unprocessed, backlog, Alone, InOrder, put-InOrder, deliver-InOrder, process-InOrder, keep-InOrder,
}

-- While no op has been deferred, the workers are in order.
abbrev Ordered : Scheduler → Type 0
Ordered s = s.deferred ≡ [] → InOrder s

hand-Ordered :
    (k : String) (h h' : Hand) (s : Scheduler)
    → (worker_for k s).hand ≡ h
    → Alone h'
    → unprocessed h' ≡ unprocessed h
    → Ordered s
    → Ordered (set_hand k h' s)
hand-Ordered k h h' s e free same o d =
    put-InOrder k (record (worker_for k s) { hand = h' }) s free (rw (e, same)) (o d)

receive-Ordered :
    (k : String) (ops : List Op) (s : Scheduler)
    → (worker_for k s).hand ≡ resting
    → (worker_for k s).queue ≡ ops
    → Ordered s
    → Ordered (receive k ops s)
receive-Ordered k [] s h q o d = o d
receive-Ordered k (op ∷ ops) s h q o d = put-InOrder k _ s tt (rw (h, q)) (o d)

append-ne-nil : (xs : List Op) (op : Op) → xs ++ op ∷ [] ≡ [] → ⊥
append-ne-nil [] op h = ground arith
append-ne-nil (x ∷ xs) op h = ground arith

release-Ordered :
    (k : String) (op : Op) (os : List Op) (s : Scheduler)
    → (worker_for k s).hand ≡ releasing op os
    → Ordered s
    → Ordered (release k op os s)
unfolding finish
release-Ordered k op [] s h o d =
    keep-InOrder (set_hand k resting s) (finish k op s) (o d).nobody refl refl refl
      (hand-Ordered k (releasing op []) resting s h tt refl o d)
release-Ordered k op (x ∷ xs) s h o d = elim (Bool-cases (has_room (worker_key x) s)) [
  | inl e ↦ absurd (not_alone (o (rw e at d)))
  | inr e ↦ rw e (o (rw e at d))
]
  where
    not_alone : InOrder s → ⊥
    not_alone i =
        let held : Alone (releasing op (x ∷ xs)) = subst Alone h (i.alone k) in ground arith

after_process-Alone :
    (op : Op) (r : Result Bool)
    → Alone (after_process op r) × (unprocessed (after_process op r) ≡ [])
after_process-Alone op (ok true) = (tt, refl)
after_process-Alone op (ok false) = (refl, refl)
after_process-Alone op (err e) = (refl, refl)

checked-Alone :
    (op : Op) (d : DependencyKey) (ds : List DependencyKey) (b : Bool)
    → Alone (if b then checking op ds else deferring op d)
      × (unprocessed (if b then checking op ds else deferring op d) ≡ op ∷ [])
checked-Alone op d ds true = (tt, refl)
checked-Alone op d ds false = (tt, refl)

module _ (env : Env) (dry_run : Bool) where
  work-Ordered :
      (k : String) (h : Hand) (s : Scheduler)
      → (worker_for k s).hand ≡ h
      → Ordered s
      → Ordered (work_on env dry_run k h s)
  unfolding work_on check_dependency run_op defer_op take_waiters
  work-Ordered k resting s h o e = receive-Ordered k (worker_for k s).queue s h refl o e
  work-Ordered k (checking op []) s h o e =
      hand-Ordered k (checking op []) (running op) s h tt refl o e
  work-Ordered k (checking op (d ∷ ds)) s h o e =
      let b = met (get env d.entity d.discord_id s.world).0 in
      let (free, same) = checked-Alone op d ds b in
      keep-InOrder _ _ (o e).nobody refl refl refl
        (hand-Ordered k (checking op (d ∷ ds)) _ s h free same o e)
  work-Ordered k (deferring op d) s h o e = absurd (append-ne-nil s.deferred op e)
  work-Ordered k (running op) s h o d =
      let (free, empty) = after_process-Alone op (process env dry_run op s.world).0 in
      process-InOrder k op _ _ s h free empty (o d)
  work-Ordered k (landing op) s h o d =
      keep-InOrder (set_hand k (releasing op []) s) _ (rw (o d).nobody) (rw (o d).nobody) refl refl
        (hand-Ordered k (landing op) (releasing op []) s h refl refl o d)
  work-Ordered k (releasing op os) s h o e = release-Ordered k op os s h o e

  send-Ordered : (n : ℕ) (o : Option Op) (s : Scheduler) → Ordered s → Ordered (send n o s)
  unfolding deliver
  send-Ordered n none s o = o
  send-Ordered n (some op) s o = elim (Bool-cases (has_room (worker_key op) s)) [
    | inl e ↦ rw e (λ d. deliver-InOrder n op s (o d))
    | inr e ↦ rw e o
  ]

  submit-Ordered : (op : Op) (s : Scheduler) → Ordered s → Ordered (submit op s)
  unfolding submit
  submit-Ordered op s o d = keep-InOrder s (submit op s) (o d).nobody refl refl refl (o d)

  move-Ordered : (m : Move) (s : Scheduler) → Ordered s → Ordered (move env dry_run m s)
  unfolding move
  move-Ordered (submits op) s o = submit-Ordered op s o
  move-Ordered (sends n) s o = send-Ordered n (nth n s.callers) s o
  move-Ordered (works k) s o = work-Ordered k (worker_for k s).hand s refl o

  run-Ordered : (ms : List Move) (s : Scheduler) → Ordered s → Ordered (run env dry_run ms s)
  unfolding run
  run-Ordered [] s o = o
  run-Ordered (m ∷ ms) s o = run-Ordered ms (move env dry_run m s) (move-Ordered m s o)

  start-Ordered : (w : World) → Ordered (new_scheduler w)
  unfolding new_scheduler worker_for lookup
  start-Ordered w d = record { nobody = refl; alone = λ k. tt; in_line = λ k. refl }

  -- As long as no op has been deferred: a worker has processed the ops of its key in the order in
  -- which they were sent to it, and those that it has not processed yet are, in this order, the one
  -- in its hand and those in its channel.
  pub of_key-run :
      (ms : List Move) (w : World) (k : String)
      → (run env dry_run ms (new_scheduler w)).deferred ≡ []
      → let s = run env dry_run ms (new_scheduler w) in
        of_key k s.sent ≡ of_key k s.ran ++ backlog (worker_for k s)
  of_key-run ms w k d = (run-Ordered ms (new_scheduler w) (start-Ordered w) d).in_line k
