-- ===== src/Engine/Scheduling/Termination.antt =====
-- No schedule of internal/engine/engine.go goes on for ever without submissions.
use luars_stoatcord.Prelude.{
  ℕ, zero, suc, ◌≤◌, ◌<◌, ◌≡◌, ◌≢◌, sym, subst, ◌∙◌, Bool, inl, inr, arith,
}
use mathlib.Core.WellFounded.{Acc}
use luars_stoatcord.World.{Env}
use luars_stoatcord.Engine.Op.{Op}
use luars_stoatcord.Engine.Scheduling.{Scheduler, Move, submits, move}
use luars_stoatcord.Engine.Scheduling.Measure.{unlanded, moves_left, Less}
use luars_stoatcord.Engine.Scheduling.Descent.{move-Less}

within :
    (n : ℕ)
    → ((t : Scheduler) → unlanded t < n → Acc Less t)
    → (i : ℕ) (s : Scheduler) → unlanded s ≤ n
    → moves_left s < i
    → Acc Less s
within n smaller zero s a b = absurd (omega arith)
within n smaller (suc i) s a b = Acc.intro s (λ t less. elim less [
  | inl fewer ↦ smaller t (omega arith)
  | inr (e, fewer) ↦ within n smaller i t (omega arith) (omega arith)
])

below : (n : ℕ) (s : Scheduler) → unlanded s < n → Acc Less s
below zero s h = absurd (omega arith)
below (suc n) s h = within n (below n) (suc (moves_left s)) s (omega arith) (omega arith)

pub Less-Acc : (s : Scheduler) → Acc Less s
Less-Acc s = below (suc (unlanded s)) s (omega arith)

-- A move that is no submission and changes something
pub data Advances (env : Env) (dry_run : Bool) : Scheduler → Scheduler → Type 0 where
  advances :
      {s t : Scheduler} (m : Move)
      → ((op : Op) → m ≢ submits op)
      → move env dry_run m s ≡ t
      → t ≢ s
      → Advances env dry_run t s

Advances-Less : {env : Env} {dry_run : Bool} {s t : Scheduler} → Advances env dry_run t s → Less t s
Advances-Less {env} {dry_run} {s} {t} (advances m other e differs) =
    elim (move-Less env dry_run m s other) [
      | inl less ↦ subst (λ u. Less u s) e less
      | inr same ↦ absurd (differs (sym e ∙ same))
    ]

Advances-Acc :
    {env : Env} {dry_run : Bool} (s : Scheduler) → Acc Less s → Acc (Advances env dry_run) s
Advances-Acc s (Acc.intro _ smaller) =
    Acc.intro s (λ t a. Advances-Acc t (smaller t (Advances-Less a)))

-- Termination: there is no infinite sequence of moves that change something, from any state on,
-- without further submissions.
pub move-Acc : (env : Env) (dry_run : Bool) (s : Scheduler) → Acc (Advances env dry_run) s
move-Acc env dry_run s = Advances-Acc s (Less-Acc s)
