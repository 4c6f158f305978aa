-- ===== src/Engine/Scheduling/Progress.antt =====
-- internal/engine/engine.go does not deadlock, and comes to rest.
use luars_stoatcord.Prelude.{
  ℕ, zero, suc, ◌+◌, ◌≤◌, ◌<◌, ◌≡◌, ◌≢◌, ◌⊎◌, refl, sym, ap, subst, String, Bool, false, none, some,
  List, [], ◌∷◌, ◌==◌, length, All, Bool-cases, inl, inr, arith, eq_iff,
}
use luars_stoatcord.Prelude.Maps.{Map, lookup}
use mathlib.Core.WellFounded.{Acc}
use luars_stoatcord.World.{Env, World}
use luars_stoatcord.Engine.Op.{Op, worker_key}
use luars_stoatcord.Engine.Scheduling.{
  Hand, resting, checking, deferring, running, landing, releasing, Worker, Scheduler, idle,
  worker_for, has_room, Move, submits, sends, works, move, run, new_scheduler, nth, send,
}
use luars_stoatcord.Engine.Scheduling.Placement.{Placed, held}
use luars_stoatcord.Engine.Scheduling.Placement.Moves.{
  move-Placed, run-Placed, start-Placed, SubmitsFit,
}
use luars_stoatcord.Engine.Scheduling.Measure.{Less}
use luars_stoatcord.Engine.Scheduling.Termination.{Less-Acc}
use luars_stoatcord.Engine.Scheduling.Descent.{Blocked, work-Less, deliver-Less}

-- No op is with a caller of Submit or a worker.
abbrev pub Rests : Scheduler → Type 0
Rests s = (s.callers ≡ []) × ((k : String) → worker_for k s ≡ idle)

abbrev pub IsIdle : String → Scheduler → Type 0
IsIdle k s = worker_for k s ≡ idle

idle_cases :
    (x : Worker) (q : List Op) (h : Hand) → x.queue ≡ q → x.hand ≡ h → (x ≡ idle) ⊎ (x ≢ idle)
idle_cases x [] resting q h = inl (ground arith)
idle_cases x (op ∷ ops) h q e = inr (λ i. ground (arith, ap (λ (y : Worker). y.queue) i))
idle_cases x [] (checking op ds) q h = inr (λ i. ground (arith, ap (λ (y : Worker). y.hand) i))
idle_cases x [] (deferring op d) q h = inr (λ i. ground (arith, ap (λ (y : Worker). y.hand) i))
idle_cases x [] (running op) q h = inr (λ i. ground (arith, ap (λ (y : Worker). y.hand) i))
idle_cases x [] (landing op) q h = inr (λ i. ground (arith, ap (λ (y : Worker). y.hand) i))
idle_cases x [] (releasing op os) q h = inr (λ i. ground (arith, ap (λ (y : Worker). y.hand) i))

-- A worker that is busy, among those of a list
busy_cases :
    (m : Map Worker) (s : Scheduler)
    → All (λ (e : String × Worker). IsIdle e.0 s) m ⊎ ((k : String) × (worker_for k s ≢ idle))
busy_cases [] s = inl tt
busy_cases ((k, x) ∷ m) s = both (idle_cases (worker_for k s) _ _ refl refl) (busy_cases m s)
  where
    both :
        (worker_for k s ≡ idle) ⊎ (worker_for k s ≢ idle)
        → All (λ (e : String × Worker). IsIdle e.0 s) m ⊎ ((j : String) × (worker_for j s ≢ idle))
        → All (λ (e : String × Worker). IsIdle e.0 s) ((k, x) ∷ m)
          ⊎ ((j : String) × (worker_for j s ≢ idle))
    both (inr busy) rest = inr (k, busy)
    both (inl i) (inr other) = inr other
    both (inl i) (inl is) = inl (i, is)

unlisted :
    (k : String) (m : Map Worker) (s : Scheduler)
    → All (λ (e : String × Worker). IsIdle e.0 s) m
    → (lookup k m ≡ none) ⊎ IsIdle k s
unfolding lookup
unlisted k [] s h = inl refl
unlisted k ((j, x) ∷ m) s (h, hs) = elim (Bool-cases (j == k)) [
  | inl e ↦ inr (subst (λ i. IsIdle i s) ((eq_iff j k).0 e) h)
  | inr e ↦ rw e (unlisted k m s hs)
]

every-IsIdle :
    (s : Scheduler) (k : String)
    → All (λ (e : String × Worker). IsIdle e.0 s) s.workers
    → (lookup k s.workers ≡ none) ⊎ IsIdle k s
    → IsIdle k s
unfolding worker_for
every-IsIdle s k h (inl e) = rw e refl
every-IsIdle s k h (inr i) = i

full-busy : (k : String) (s : Scheduler) → has_room k s ≡ false → worker_for k s ≢ idle
unfolding has_room
full-busy k s h i = ground (arith, ap (λ (x : Worker). length x.queue) i)

abbrev pub NoSubmission : Move → Type 0
NoSubmission m = (op : Op) → m ≢ submits op

-- A schedule without further submissions leads to rest.
abbrev pub ComesToRest : Env → Bool → Scheduler → Type 0
ComesToRest env dry_run s = (ms : List Move) × All NoSubmission ms × Rests (run env dry_run ms s)

module _ (height : String → ℕ) (Q : Op → Type 0) (top : ℕ) (bounded : (k : String) → height k ≤ top)
    (env : Env) (dry_run : Bool) where
  -- Who is busy and has to wait waits for a busy worker of a higher layer.
  waited_for :
      (k : String) (h : Hand) (s : Scheduler)
      → (worker_for k s).hand ≡ h
      → Placed height Q s
      → worker_for k s ≢ idle
      → Blocked k h s
      → (j : String) × (height k < height j) × (worker_for j s ≢ idle)
  waited_for k resting s e o busy b = absurd (busy (ground arith))
  waited_for k (releasing op (x ∷ xs)) s e o busy b =
      let (l, above) = (held height Q k (releasing op (x ∷ xs)) s e o).1.0 in
      (worker_key x, above, full-busy (worker_key x) s b)
  waited_for k (releasing op []) s e o busy b = absurd b
  waited_for k (checking op ds) s e o busy b = absurd b
  waited_for k (deferring op d) s e o busy b = absurd b
  waited_for k (running op) s e o busy b = absurd b
  waited_for k (landing op) s e o busy b = absurd b

  abbrev CanWork : Scheduler → Type 0
  CanWork s = (k : String) × Less (move env dry_run (works k) s) s

  -- A busy worker makes a move, or waits for a busy one of a higher layer.
  work_or_wait :
      (k : String) (s : Scheduler)
      → Placed height Q s
      → worker_for k s ≢ idle
      → Less (move env dry_run (works k) s) s
        ⊎ ((j : String) × (height k < height j) × (worker_for j s ≢ idle))
  unfolding move
  work_or_wait k s o busy = elim (work-Less env dry_run k (worker_for k s).hand s refl) [
    | inl less ↦ inl less
    | inr (b, _) ↦ inr (waited_for k (worker_for k s).hand s refl o busy b)
  ]

  find_worker :
      (n : ℕ) (k : String) (s : Scheduler)
      → Placed height Q s
      → worker_for k s ≢ idle
      → top < height k + n
      → CanWork s
  find_worker zero k s o busy high = absurd (omega (arith, bounded k))
  find_worker (suc n) k s o busy high = elim (work_or_wait k s o busy) [
    | inl less ↦ (k, less)
    | inr (j, above, b) ↦ find_worker n j s o b (omega arith)
  ]

  abbrev pub CanMove : Scheduler → Type 0
  CanMove s = (m : Move) × ((op : Op) → m ≢ submits op) × Less (move env dry_run m s) s

  busy-CanMove :
      (k : String) (s : Scheduler) → Placed height Q s → worker_for k s ≢ idle → CanMove s
  busy-CanMove k s o busy =
      let (j, less) = find_worker (suc top) k s o busy (omega arith) in
      (works j, (λ op e. ground arith), less)

  caller-CanMove :
      (ops : List Op) (s : Scheduler) → Placed height Q s → s.callers ≡ ops → ops ≢ [] → CanMove s
  unfolding move
  caller-CanMove [] s o e ne = absurd (ne refl)
  caller-CanMove (op ∷ ops) s o e ne = elim (Bool-cases (has_room (worker_key op) s)) [
    | inl room ↦ (
      sends 0,
      λ o e. ground arith,
      subst (λ c. Less (send 0 c s) s) (sym first) (deliver-Less env dry_run 0 op s first room),
    )
    | inr full ↦ busy-CanMove (worker_key op) s o (full-busy (worker_key op) s full)
  ]
    where
      first : nth 0 s.callers ≡ some op
      first = rw e refl

  list_cases {ℓ} : {A : Type ℓ} (xs : List A) → (xs ≡ []) ⊎ (xs ≢ [])
  list_cases [] = inl refl
  list_cases (x ∷ xs) = inr (λ e. ground arith)

  -- No deadlock: an op is with nobody but the waiters, or a move can be made that is no submission.
  rest_or_move : (s : Scheduler) → Placed height Q s → Rests s ⊎ CanMove s
  rest_or_move s o = elim (list_cases s.callers) [
    | inr some_caller ↦ inr (caller-CanMove s.callers s o refl some_caller)
    | inl none_left ↦ elim (busy_cases s.workers s) [
      | inl h ↦ inl (none_left, λ k. every-IsIdle s k h (unlisted k s.workers s h))
      | inr (k, busy) ↦ inr (busy-CanMove k s o busy)
    ]
  ]

  not-SubmitsFit : (m : Move) → NoSubmission m → SubmitsFit height Q env dry_run m
  not-SubmitsFit (submits op) h = absurd (h op refl)
  not-SubmitsFit (sends n) h = tt
  not-SubmitsFit (works k) h = tt

  first_move :
      (m : Move) (s : Scheduler)
      → NoSubmission m
      → ComesToRest env dry_run (move env dry_run m s)
      → ComesToRest env dry_run s
  unfolding run
  first_move m s h (ms, hs, r) = (m ∷ ms, (h, hs), r)

  comes_to_rest : (s : Scheduler) → Acc Less s → Placed height Q s → ComesToRest env dry_run s
  unfolding run
  comes_to_rest s (Acc.intro _ smaller) o = elim (rest_or_move s o) [
    | inl r ↦ ([], tt, r)
    | inr (m, h, less) ↦ first_move m s h (
        comes_to_rest (move env dry_run m s) (smaller (move env dry_run m s) less)
          (move-Placed height Q env dry_run m s (not-SubmitsFit m h) o))
  ]

  -- If the layers are bounded, and every op that is submitted depends on ops of lower layers only and
  -- has `Q`: after any schedule, some schedule without further submissions leads to a state in which
  -- no op is with a caller of Submit or with a worker.
  pub run-ComesToRest :
      (ms : List Move) (w : World)
      → All (SubmitsFit height Q env dry_run) ms
      → ComesToRest env dry_run (run env dry_run ms (new_scheduler w))
  run-ComesToRest ms w h =
      let s = run env dry_run ms (new_scheduler w) in
      comes_to_rest s (Less-Acc s)
        (run-Placed height Q env dry_run ms (new_scheduler w) h (start-Placed height Q w))
