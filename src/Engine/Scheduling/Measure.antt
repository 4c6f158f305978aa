-- ===== src/Engine/Scheduling/Measure.antt =====
-- What every move of internal/engine/engine.go but a new submission brings down: the ops that may still
-- notify their waiters, and then the moves that are left until one of them does.
use luars_stoatcord.Prelude.{
  ℕ, ◌+◌, ◌<◌, ◌≡◌, ◌⊎◌, String, [], ◌∷◌, ◌++◌, ◌==◌, length, Bool-cases, inl, inr, arith,
}
use luars_stoatcord.Prelude.Maps.{Map, lookup, insert}
use luars_stoatcord.Engine.Op.{Op}
use luars_stoatcord.Engine.Scheduling.{
  Hand, resting, checking, deferring, running, landing, releasing, Worker, Scheduler, started,
  worker_for, put_worker, set_hand, push_queue, ops_of,
}
use luars_stoatcord.Engine.Scheduling.Counting.{sum, sum-snoc}

-- A weight for each place where an op can be.
pub record Weights : Type 0 where
  pub with_caller : Op → ℕ
  pub in_queue : Op → ℕ
  pub in_hand : Hand → ℕ
  pub waiting : Op → ℕ

module _ (w : Weights) where
  unfoldable pub weigh : Worker → ℕ
  weigh x = w.in_hand x.hand + sum w.in_queue x.queue

  unfoldable pub weigh_all : Map Worker → ℕ
  weigh_all [] = 0
  weigh_all ((_, x) ∷ m) = weigh x + weigh_all m

  abbrev pub total : Scheduler → ℕ
  total s = sum w.with_caller s.callers + weigh_all s.workers + sum w.waiting (ops_of s.waiters)

  weigh_all-insert :
      (k : String) (x : Worker) (m : Map Worker)
      → w.in_hand resting ≡ 0
      → weigh_all (insert k x m) + weigh (started (lookup k m)) ≡ weigh_all m + weigh x
  unfolding weigh_all weigh insert lookup sum
  weigh_all-insert k x [] z = omega (arith, z)
  weigh_all-insert k x ((j, y) ∷ m) z = elim (Bool-cases (j == k)) [
    | inl h ↦ rw h (omega arith)
    | inr h ↦ rw h (omega (arith, weigh_all-insert k x m z))
  ]

  -- A change of one worker.
  pub total-put :
      (k : String) (x : Worker) (s : Scheduler)
      → w.in_hand resting ≡ 0
      → total (put_worker k x s) + weigh (worker_for k s) ≡ total s + weigh x
  unfolding worker_for
  total-put k x s z = omega (arith, weigh_all-insert k x s.workers z)

  pub total-hand :
      (k : String) (h : Hand) (s : Scheduler)
      → w.in_hand resting ≡ 0
      → total (set_hand k h s) + w.in_hand (worker_for k s).hand ≡ total s + w.in_hand h
  unfolding weigh
  total-hand k h s z = omega (arith, total-put k (record (worker_for k s) { hand = h }) s z)

  pub total-push :
      (k : String) (op : Op) (s : Scheduler)
      → w.in_hand resting ≡ 0
      → total (push_queue k op s) ≡ total s + w.in_queue op
  unfolding weigh
  total-push k op s z = omega (
    arith,
    total-put k (record (worker_for k s) { queue = (worker_for k s).queue ++ op ∷ [] }) s z,
    sum-snoc w.in_queue (worker_for k s).queue op,
  )

abbrev pub one : Op → ℕ
one op = 1

abbrev pub may_land : Hand → ℕ
may_land resting = 0
may_land (releasing op os) = sum one os
may_land _ = 1

abbrev pub dependencies : Op → ℕ
dependencies op = length op.depends_on

abbrev pub queued : Op → ℕ
queued op = dependencies op + 4

abbrev pub to_release : Op → ℕ
to_release op = dependencies op + 5

abbrev pub moves_of : Hand → ℕ
moves_of resting = 0
moves_of (checking op ds) = length ds + 3
moves_of (deferring op d) = 1
moves_of (running op) = 2
moves_of (landing op) = 1
moves_of (releasing op os) = sum to_release os + 1

abbrev pub landings : Weights
landings = record { with_caller = one; in_queue = one; in_hand = may_land; waiting = one }

abbrev pub steps : Weights
steps = record { with_caller = to_release; in_queue = queued; in_hand = moves_of; waiting = λ _. 0 }

-- The ops that may still land
abbrev pub unlanded : Scheduler → ℕ
unlanded s = total landings s

abbrev pub moves_left : Scheduler → ℕ
moves_left s = total steps s

abbrev pub Less : Scheduler → Scheduler → Type 0
Less t s = (unlanded t < unlanded s) ⊎ ((unlanded t ≡ unlanded s) × (moves_left t < moves_left s))
