-- ===== src/Engine/Scheduling/Descent.antt =====
-- Each move of internal/engine/engine.go that is no submission brings the measure down, or has to block
-- and changes nothing.
use luars_stoatcord.Prelude.{
  ℕ, ◌<◌, ◌≡◌, ◌≢◌, ◌⊎◌, refl, ap, String, Bool, true, false, Option, none, some, List, [], ◌∷◌,
  select, Bool-cases, inl, inr, arith, if◌then◌else◌,
}
use luars_stoatcord.Canonical.Result.{Result, ok, err}
use luars_stoatcord.World.{Env}
use luars_stoatcord.Store.{get}
use luars_stoatcord.Engine.Op.{DependencyKey, Op, worker_key}
use luars_stoatcord.Engine.Process.{process}
use luars_stoatcord.Engine.Scheduling.{
  Hand, resting, checking, deferring, running, landing, releasing, Worker, Scheduler, worker_for,
  set_hand, has_room, waits_on, ops_of, key_of, after_process, nth, deliver, send, receive,
  defer_op, take_waiters, finish, release, check_dependency, run_op, work_on, met, Move, submits,
  sends, works, move,
}
use luars_stoatcord.Engine.Scheduling.Counting.{sum, sum-select, sum-nth, sum-waiters}
use luars_stoatcord.Engine.Scheduling.Measure.{
  weigh, one, may_land, queued, to_release, moves_of, landings, steps, Less, total-put, total-hand,
  total-push,
}

-- The worker of `k` has to wait: its channel is empty, or the channel that it sends to is full.
abbrev pub Blocked : String → Hand → Scheduler → Type 0
Blocked k resting s = (worker_for k s).queue ≡ []
Blocked k (releasing op (o ∷ os)) s = has_room (worker_key o) s ≡ false
Blocked k _ s = ⊥

-- A new hand from which fewer moves are left
hand-Less :
    (k : String) (h h' : Hand) (s : Scheduler)
    → (worker_for k s).hand ≡ h
    → may_land h' ≡ may_land h
    → moves_of h' < moves_of h
    → Less (set_hand k h' s) s
hand-Less k h h' s e same fewer = inr (
  omega (arith, total-hand landings k h' s refl, ap may_land e, same),
  omega (arith, total-hand steps k h' s refl, ap moves_of e, fewer),
)

receive-Less :
    (k : String) (op : Op) (ops : List Op) (s : Scheduler)
    → (worker_for k s).hand ≡ resting
    → (worker_for k s).queue ≡ op ∷ ops
    → Less (receive k (op ∷ ops) s) s
unfolding weigh sum
receive-Less k op ops s h q = inr (
  omega (arith, total-put landings k x s refl, ap may_land h, ap (sum one) q),
  omega (arith, total-put steps k x s refl, ap moves_of h, ap (sum queued) q),
)
  where
    x : Worker
    x = record { queue = ops; hand = checking op op.depends_on }

defer-Less :
    (k : String) (op : Op) (d : DependencyKey) (s : Scheduler)
    → (worker_for k s).hand ≡ deferring op d
    → Less (defer_op k op d s) s
unfolding defer_op
defer-Less k op d s h = inr (
  omega
      (arith, total-hand landings k resting s refl, ap may_land h, sum-waiters one s.waiters d op),
  omega (
    arith,
    total-hand steps k resting s refl,
    ap moves_of h,
    sum-waiters (λ _. 0) s.waiters d op,
  ),
)

take-Less :
    (k : String) (op : Op) (s : Scheduler)
    → (worker_for k s).hand ≡ landing op
    → Less (take_waiters k op s) s
unfolding take_waiters
take-Less k op s h = inl (
    omega (
      arith,
      total-hand landings k (releasing op (ops_of (select (waits_on (key_of op)) s.waiters))) s
          refl,
      ap may_land h,
      sum-select one (key_of op) s.waiters,
    ))

release-Less :
    (k : String) (op : Op) (os : List Op) (s : Scheduler)
    → (worker_for k s).hand ≡ releasing op os
    → Less (release k op os s) s ⊎ (Blocked k (releasing op os) s × (release k op os s ≡ s))
unfolding finish sum
release-Less k op [] s h = inl (hand-Less k (releasing op []) resting s h refl (omega arith))
release-Less k op (o ∷ os) s h = elim (Bool-cases (has_room (worker_key o) s)) [
  | inl e ↦ rw e (
      inl (
        inr (
          omega (
            arith,
            total-push landings (worker_key o) o (set_hand k (releasing op os) s) refl,
            total-hand landings k (releasing op os) s refl,
            ap may_land h,
          ),
          omega (
            arith,
            total-push steps (worker_key o) o (set_hand k (releasing op os) s) refl,
            total-hand steps k (releasing op os) s refl,
            ap moves_of h,
          ),
        )))
  | inr e ↦ rw e (inr (refl, refl))
]

process-Less :
    (k : String) (op : Op) (r : Result Bool) (s : Scheduler)
    → (worker_for k s).hand ≡ running op
    → Less (set_hand k (after_process op r) s) s
unfolding sum
process-Less k op (ok true) s h = hand-Less k (running op) (landing op) s h refl (omega arith)
process-Less k op (ok false) s h =
    inl (omega (arith, total-hand landings k (releasing op []) s refl, ap may_land h))
process-Less k op (err e) s h =
    inl (omega (arith, total-hand landings k (releasing op []) s refl, ap may_land h))

check-Less :
    (k : String) (op : Op) (d : DependencyKey) (ds : List DependencyKey) (b : Bool) (s : Scheduler)
    → (worker_for k s).hand ≡ checking op (d ∷ ds)
    → Less (set_hand k (if b then checking op ds else deferring op d) s) s
check-Less k op d ds true s h = hand-Less k (checking op (d ∷ ds)) _ s h refl (omega arith)
check-Less k op d ds false s h = hand-Less k (checking op (d ∷ ds)) _ s h refl (omega arith)

receive-cases :
    (k : String) (ops : List Op) (s : Scheduler)
    → (worker_for k s).hand ≡ resting
    → (worker_for k s).queue ≡ ops
    → Less (receive k ops s) s ⊎ (((worker_for k s).queue ≡ []) × (receive k ops s ≡ s))
receive-cases k [] s h q = inr (q, refl)
receive-cases k (op ∷ ops) s h q = inl (receive-Less k op ops s h q)

module _ (env : Env) (dry_run : Bool) where
  pub work-Less :
      (k : String) (h : Hand) (s : Scheduler)
      → (worker_for k s).hand ≡ h
      → Less (work_on env dry_run k h s) s ⊎ (Blocked k h s × (work_on env dry_run k h s ≡ s))
  unfolding work_on check_dependency run_op
  work-Less k resting s h = receive-cases k (worker_for k s).queue s h refl
  work-Less k (checking op []) s h =
      inl (hand-Less k (checking op []) (running op) s h refl (omega arith))
  work-Less k (checking op (d ∷ ds)) s h =
      inl (check-Less k op d ds (met (get env d.entity d.discord_id s.world).0) s h)
  work-Less k (deferring op d) s h = inl (defer-Less k op d s h)
  work-Less k (running op) s h = inl (process-Less k op (process env dry_run op s.world).0 s h)
  work-Less k (landing op) s h = inl (take-Less k op s h)
  work-Less k (releasing op os) s h = release-Less k op os s h

  pub deliver-Less :
      (n : ℕ) (op : Op) (s : Scheduler)
      → nth n s.callers ≡ some op
      → has_room (worker_key op) s ≡ true
      → Less (send n (some op) s) s
  unfolding deliver
  deliver-Less n op s h e = rw e (
      inr (
        omega (arith, total-push landings (worker_key op) op s refl, sum-nth one n s.callers op h),
        omega (
          arith,
          total-push steps (worker_key op) op s refl,
          sum-nth to_release n s.callers op h,
        ),
      ))

  send-Less :
      (n : ℕ) (o : Option Op) (s : Scheduler)
      → nth n s.callers ≡ o
      → Less (send n o s) s ⊎ (send n o s ≡ s)
  send-Less n none s h = inr refl
  send-Less n (some op) s h = elim (Bool-cases (has_room (worker_key op) s)) [
    | inl e ↦ inl (deliver-Less n op s h e)
    | inr e ↦ rw e (inr refl)
  ]

  -- A move without a submission
  pub move-Less :
      (m : Move) (s : Scheduler)
      → ((op : Op) → m ≢ submits op)
      → Less (move env dry_run m s) s ⊎ (move env dry_run m s ≡ s)
  unfolding move
  move-Less (submits op) s other = absurd (other op refl)
  move-Less (sends n) s other = send-Less n (nth n s.callers) s refl
  move-Less (works k) s other = forget (work-Less k (worker_for k s).hand s refl)
    where
      forget : {A B C : Type 0} → A ⊎ (B × C) → A ⊎ C
      forget (inl a) = inl a
      forget (inr (b, c)) = inr c
