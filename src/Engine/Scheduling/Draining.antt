-- ===== src/Engine/Scheduling/Draining.antt =====
-- drainEngine of cmd/stoatcord/wiring.go over Engine.Wait: the shutdown waits for the ops in flight, for
-- a limited time.
use luars_stoatcord.Prelude.{
  ℕ, ◌≡◌, ◌≢◌, refl, Bool, true, false, Option, none, some, List, [], ◌∷◌, length, any, All, nat_eq,
  if◌then◌else◌, arith,
}
use luars_stoatcord.World.{Env, World}
use luars_stoatcord.Engine.Op.{Op}
use luars_stoatcord.Engine.Scheduling.{Scheduler, Move, submits, works, move, run, new_scheduler}
use luars_stoatcord.Engine.Scheduling.Waiting.{Quiet, move-Quiet, wg-Quiet}

-- What happens while drainEngine waits: a move of the engine; Wait returns, which closes the channel
-- and is possible while its counter is 0; or the select takes one of its cases, the first one only
-- if the channel is closed.
pub data Instant : Type 0 where
  engine_moves : Move → Instant
  wait_returns takes_drained takes_timer : Instant

module _ (env : Env) (dry_run : Bool) where
  -- Whether the drain has timed out; none while it waits. `closed` says that the channel is closed.
  unfoldable pub drain_engine : List Instant → Bool → Scheduler → Option Bool
  drain_engine [] closed s = none
  drain_engine (engine_moves m ∷ is) closed s = drain_engine is closed (move env dry_run m s)
  drain_engine (wait_returns ∷ is) closed s =
      drain_engine is (if nat_eq s.wg 0 then true else closed) s
  drain_engine (takes_drained ∷ is) closed s =
      let rest = drain_engine is closed s in if closed then some false else rest
  drain_engine (takes_timer ∷ is) closed s = some true

abbrev pub is_timer : Instant → Bool
is_timer takes_timer = true
is_timer _ = false

-- No op is submitted any more.
abbrev pub SubmitsNothing : Instant → Type 0
SubmitsNothing (engine_moves m) = (op : Op) → m ≢ submits op
SubmitsNothing _ = Unit

module _ (env : Env) (dry_run : Bool) (s : Scheduler) (quiet : Quiet s)
    (busy : nat_eq s.wg 0 ≡ false) where
  stuck :
      (is : List Instant)
      → All SubmitsNothing is
      → drain_engine env dry_run is false s ≡ (if any is_timer is then some true else none)
  unfolding drain_engine
  stuck [] h = refl
  stuck (engine_moves m ∷ is) (h, hs) = rw (move-Quiet env dry_run m s quiet h) (stuck is hs)
  stuck (wait_returns ∷ is) (h, hs) = rw busy (stuck is hs)
  stuck (takes_drained ∷ is) (h, hs) = stuck is hs
  stuck (takes_timer ∷ is) (h, hs) = refl

has_waiters : {A : Type 0} (n : ℕ) (xs : List A) → n ≡ length xs → xs ≢ [] → nat_eq n 0 ≡ false
has_waiters n [] e h = absurd (h refl)
has_waiters n (x ∷ xs) e h = ground arith

-- If no op is with a caller of Submit or a worker and an op is deferred, then without a new
-- submission drainEngine does not return before its timer fires, and then reports a timeout.
pub drain_engine-Quiet :
    (env : Env) (dry_run : Bool) (ms : List Move) (w : World) (is : List Instant)
    → Quiet (run env dry_run ms (new_scheduler w))
    → (run env dry_run ms (new_scheduler w)).waiters ≢ []
    → All SubmitsNothing is
    → drain_engine env dry_run is false (run env dry_run ms (new_scheduler w))
      ≡ (if any is_timer is then some true else none)
drain_engine-Quiet env dry_run ms w is q deferred h =
    stuck env dry_run _ q
      (has_waiters _ _ (wg-Quiet env dry_run ms w (works "") q (λ op e. ground arith)).0 deferred)
      is h
