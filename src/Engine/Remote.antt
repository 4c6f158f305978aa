-- ===== src/Engine/Remote.antt =====
-- internal/engine/remote.go: the remote call with its limiter and its retries.
use luars_stoatcord.Prelude.{ℕ, zero, suc, ◌+◌, String, Option, none, some, ◌∷◌}
use luars_stoatcord.Canonical.Result.{Result, ok, err, Error, rate_limited, failed}
use luars_stoatcord.World.{Env, World, waited, backed_off}
use luars_stoatcord.World.Exec.{Exec}
use luars_stoatcord.Engine.Op.{Op, bucket_key}

abbrev pub max_remote_retries : ℕ
max_remote_retries = 5

abbrev pub waited_or : Option Error → Result (Unit {0})
waited_or none = ok tt
waited_or (some e) = err e

abbrev pub backoff : String → ℕ → World → World
backoff key retry_after w = record w { trace = backed_off key retry_after ∷ w.trace }

abbrev pub last_error : Option Error → Result String
last_error none = ok ""
last_error (some e) = err e

-- One attempt returns, or asks for another one after so long.
pub data Attempt : Type 0 where
  returned : Result String → Attempt
  limited : ℕ → Attempt

abbrev pub after_apply : Result String → World → Attempt × World
after_apply (ok stoat_id) w = (returned (ok stoat_id), w)
after_apply (err (rate_limited n)) w = (limited n, w)
after_apply (err (failed s)) w = (returned (err (failed s)), w)

module _ (env : Env) where
  -- limiter.Wait(ctx, key)
  unfoldable pub wait : String → Exec World (Unit {0})
  wait key w = (
    waited_or (env.wait_fails w.asked),
    record w { asked = w.asked + 1; trace = waited key ∷ w.trace },
  )

  abbrev pub after_wait : Op → Result (Unit {0}) → World → Attempt × World
  after_wait op (err e) w = (returned (err e), w)
  after_wait op (ok _) w = let (r, w') = op.apply w in after_apply r w'

  unfoldable pub attempt : Op → World → Attempt × World
  attempt op w = let (r, w') = wait (bucket_key op) w in after_wait op r w'

  -- The attempts left, and the last error.
  unfoldable pub attempts : ℕ → Op → Option Error → Exec World String
  attempts zero op last w = (last_error last, w)
  attempts (suc left) op last w =
      let (a, w') = attempt op w in
      elim a [
        | returned r ↦ (r, w')
        | limited n ↦ attempts left op (some (rate_limited n)) (backoff (bucket_key op) n w')
      ]

  unfoldable pub run_remote : Op → Exec World String
  run_remote op = attempts (suc max_remote_retries) op none
