-- ===== src/Engine/Retries.antt =====
-- How often runRemote (internal/engine/remote.go) waits for the limiter, backs off and gives up.
use luars_stoatcord.Prelude.{
  ℕ, zero, suc, ◌+◌, ◌≤◌, String, ◌≡◌, refl, Option, none, some, List, [], ◌∷◌, arith, inl, inr,
  ◌⊎◌, ◌≢◌, ◌∙◌,
}
use luars_stoatcord.Canonical.Result.{Result, err, Error, rate_limited}
use luars_stoatcord.World.{Env, World, Event, waited, backed_off}
use luars_stoatcord.Engine.Op.{Op, bucket_key}
use luars_stoatcord.Engine.Remote.{
  Attempt, returned, limited, wait, attempt, attempts, run_remote, backoff,
}

-- The limiter's Wait calls, and its Backoff calls, in a trace.
abbrev pub waits : List Event → ℕ
waits [] = 0
waits (waited _ ∷ es) = suc (waits es)
waits (_ ∷ es) = waits es

abbrev pub backoffs : List Event → ℕ
backoffs [] = 0
backoffs (backed_off _ _ ∷ es) = suc (backoffs es)
backoffs (_ ∷ es) = backoffs es

-- Apply does not call the limiter: that is the engine's part.
abbrev pub Unlimited : Op → Type 0
Unlimited op =
    (w : World)
    → (waits (op.apply w).1.trace ≡ waits w.trace)
      × (backoffs (op.apply w).1.trace ≡ backoffs w.trace)

-- Apply does not write the tables.
abbrev pub KeepsStore : Op → Type 0
KeepsStore op = (w : World) → (op.apply w).1.store ≡ w.store

abbrev pub tried : Op → World → World
tried op w = record w { asked = w.asked + 1; trace = waited (bucket_key op) ∷ w.trace }

pub Attempt-cases :
    (a : Attempt) → ((r : Result String) × (a ≡ returned r)) ⊎ ((n : ℕ) × (a ≡ limited n))
Attempt-cases (returned r) = inl (r, refl)
Attempt-cases (limited n) = inr (n, refl)

-- How far a run got: at most `left` waits and backoffs more, and all of them if the run ends rate
-- limited.
abbrev Spent : ℕ → World → Result String × World → Type 0
Spent left w (r, w') =
    (waits w'.trace ≤ waits w.trace + left)
    × (backoffs w'.trace ≤ backoffs w.trace + left)
    × ((n : ℕ)
        → r ≡ err (rate_limited n)
        → (waits w'.trace ≡ waits w.trace + left) × (backoffs w'.trace ≡ backoffs w.trace + left))

module _ (env : Env) (op : Op) (u : Unlimited op) (live : (n : ℕ) → env.wait_fails n ≡ none) where
  counts-attempt :
      (w : World)
      → (waits (attempt env op w).1.trace ≡ suc (waits w.trace))
        × (backoffs (attempt env op w).1.trace ≡ backoffs w.trace)
  unfolding attempt wait
  counts-attempt w = ground (arith, live w.asked, (u (tried op w)).0, (u (tried op w)).1)

  -- An attempt that returns is not rate limited.
  attempt_returned :
      (w : World) (r : Result String) (n : ℕ)
      → (attempt env op w).0 ≡ returned r
      → r ≢ err (rate_limited n)
  unfolding attempt wait
  attempt_returned w r n h e = ground (arith, live w.asked)

  Spent-attempts :
      (left : ℕ) (last : Option Error) (w : World) → Spent left w (attempts env left op last w)
  unfolding attempts
  Spent-attempts zero last w = (omega arith, omega arith, λ n _. (omega arith, omega arith))
  Spent-attempts (suc left) last w = elim (Attempt-cases (attempt env op w).0) [
    | inl (r, e) ↦
        let (p, q) = counts-attempt w in
        rw (e, attempts) (omega arith, omega arith, λ n h. absurd (attempt_returned w r n e h))
    | inr (n, e) ↦
        let (p, q) = counts-attempt w in
        let (x, y, z) =
          Spent-attempts left (some (rate_limited n))
            (backoff (bucket_key op) n (attempt env op w).1) in
        rw (e, attempts)
          (omega arith, omega arith, λ m h. let (a, b) = z m h in (omega arith, omega arith))
  ]

  -- runRemote waits for the limiter at most six times and backs off at most six times; it gives up as
  -- rate limited only after both.
  pub run_remote_bounded : (w : World) → Spent 6 w (run_remote env op w)
  unfolding run_remote
  run_remote_bounded = Spent-attempts 6 none

module _ (env : Env) (op : Op) (keeps : KeepsStore op) where
  store-attempt : (w : World) → (attempt env op w).1.store ≡ w.store
  unfolding attempt wait
  store-attempt w = ground (arith, keeps (tried op w))

  store-attempts :
      (left : ℕ) (last : Option Error) (w : World) → (attempts env left op last w).1.store ≡ w.store
  unfolding attempts
  store-attempts zero last w = refl
  store-attempts (suc left) last w = elim (Attempt-cases (attempt env op w).0) [
    | inl (r, e) ↦ rw (e, attempts) (store-attempt w)
    | inr (n, e) ↦
        rw (e, attempts)
          (store-attempts left (some (rate_limited n))
              (backoff (bucket_key op) n (attempt env op w).1)
            ∙ store-attempt w)
  ]

  pub store-run_remote : (w : World) → (run_remote env op w).1.store ≡ w.store
  unfolding run_remote
  store-run_remote w = store-attempts 6 none w
