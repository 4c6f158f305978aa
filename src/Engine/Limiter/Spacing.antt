-- ===== src/Engine/Limiter/Spacing.antt =====
-- How far apart the calls are that internal/engine/rate_limiter.go lets go on.
use luars_stoatcord.Prelude.{
  ℕ, ◌+◌, ◌≤◌, ◌≡◌, true, false, List, [], ◌∷◌, arith, leb, Bool-cases, inl, inr,
}
use luars_stoatcord.Engine.Limiter.{Limiter, Call, turn, back_off, try_wait, backoff, grants, later}

-- Each time is at least `interval` after the one before it, and the first one is at least `from`.
abbrev pub Spaced : ℕ → ℕ → List ℕ → Type 0
Spaced interval from [] = Unit
Spaced interval from (g ∷ gs) = (from ≤ g) × Spaced interval (g + interval) gs

Spaced-weaken :
    (interval from from' : ℕ) (gs : List ℕ)
    → from' ≤ from
    → Spaced interval from gs
    → Spaced interval from' gs
Spaced-weaken interval from from' [] le h = tt
Spaced-weaken interval from from' (g ∷ gs) le (h, hs) = (omega arith, hs)

abbrev next : Limiter → ℕ → Limiter
next l now = record l { next_allowed = later now l.next_allowed + l.min_interval }

-- Whatever the order and the times of the calls and backoffs, no call goes on before nextAllowed,
-- and two calls that go on are at least minInterval apart.
pub grants-Spaced :
    (cs : List Call) (l : Limiter) → Spaced l.min_interval l.next_allowed (grants cs l)
unfolding grants try_wait backoff
grants-Spaced [] l = tt
grants-Spaced (turn now ∷ cs) l = elim (Bool-cases (leb l.next_allowed now)) [
  | inl e ↦ rw e (
    ground arith,
    Spaced-weaken _ _ _ (grants cs (next l now)) (ground arith) (grants-Spaced cs (next l now)),
  )
  | inr e ↦ rw e (grants-Spaced cs l)
]
grants-Spaced (back_off now d ∷ cs) l =
    Spaced-weaken _ _ _ (grants cs (backoff now d l)) (ground arith)
      (grants-Spaced cs (backoff now d l))

-- After a backoff no call goes on before its window ends, whatever comes in between.
grants-backoff :
    (cs : List Call) (now d : ℕ) (l : Limiter)
    → Spaced l.min_interval (now + d) (grants cs (backoff now d l))
unfolding backoff
grants-backoff cs now d l =
    Spaced-weaken _ _ _ (grants cs (backoff now d l)) (ground arith)
      (grants-Spaced cs (backoff now d l))

-- A call that is told to sleep goes on at the time it sleeps until, if nothing intervenes.
pub try_wait_again :
    (now : ℕ) (l : Limiter)
    → (try_wait now l).0 ≡ false
    → (try_wait l.next_allowed (try_wait now l).1).0 ≡ true
unfolding try_wait
try_wait_again now l h = ground arith
