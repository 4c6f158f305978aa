-- ===== src/Engine/Asking.antt =====
-- What process of internal/engine/engine.go asks of the outside: the calls of the limiter and what
-- Apply of the op asks.
use luars_stoatcord.Prelude.{
  ℕ, zero, suc, ◌+◌, String, Bool, true, false, not, ◌≡◌, refl, sym, subst, ◌⊎◌, inl, inr, Option,
  List, ◌∷◌, if◌then◌else◌,
}
use luars_stoatcord.Canonical.Result.{Result, ok, err, Error, rate_limited, failed}
use luars_stoatcord.World.{Env, World, Event, waited, backed_off}
use luars_stoatcord.World.Exec.{pure, lift, Preserves, bind-Preserves, ◌>>◌}
use luars_stoatcord.Store.{get, write_pending, confirm, remove, enqueue}
use luars_stoatcord.Store.Quiet.{
  trace-get, trace-write_pending, trace-confirm, trace-remove, trace-enqueue,
}
use luars_stoatcord.Engine.Op.{
  OpKind, op_create, op_update, op_delete, Op, bucket_key, op_queue_type,
}
use luars_stoatcord.Engine.Remote.{
  after_apply, after_wait, wait, attempt, attempts, run_remote, backoff,
}
use luars_stoatcord.Engine.Retries.{Attempt-cases, tried}
use luars_stoatcord.Engine.Process.{
  health_check, process_delete, push, process_update, log_dry_run, by_kind, process, is_empty,
  degraded, run_diff,
}

module _ (env : Env) (op : Op) where
  after_apply-world : (r : Result String) (w : World) → (after_apply r w).1 ≡ w
  after_apply-world (ok id) w = refl
  after_apply-world (err (rate_limited n)) w = refl
  after_apply-world (err (failed s)) w = refl

  after_wait-world :
      (r : Result (Unit {0})) (w : World)
      → ((after_wait env op r w).1 ≡ w) ⊎ ((after_wait env op r w).1 ≡ (op.apply w).1)
  after_wait-world (err e) w = inl refl
  after_wait-world (ok tt) w = inr (after_apply-world (op.apply w).0 (op.apply w).1)

  attempt-world :
      (w : World)
      → ((attempt env op w).1 ≡ tried op w) ⊎ ((attempt env op w).1 ≡ (op.apply (tried op w)).1)
  unfolding attempt wait
  attempt-world w = after_wait-world _ (tried op w)

-- A property of the trace that the calls of the limiter and Apply keep.
module _ (env : Env) (op : Op) (P : List Event → Type 0)
    (by_wait : (k : String) (es : List Event) → P es → P (waited k ∷ es))
    (by_backoff : (k : String) (n : ℕ) (es : List Event) → P es → P (backed_off k n ∷ es))
    (by_apply : (w : World) → P w.trace → P (op.apply w).1.trace) where
  abbrev Told : World → Type 0
  Told w = P w.trace

  attempt-Told : (w : World) → Told w → Told (attempt env op w).1
  attempt-Told w h =
      let after = by_wait (bucket_key op) w.trace h in
      elim (attempt-world env op w) [
        | inl e ↦ subst Told (sym e) after
        | inr e ↦ subst Told (sym e) (by_apply (tried op w) after)
      ]

  attempts-Told : (left : ℕ) (last : Option Error) → Preserves Told (attempts env left op last)
  unfolding attempts
  attempts-Told zero last w h = h
  attempts-Told (suc left) last w h = elim (Attempt-cases (attempt env op w).0) [
    | inl (r, e) ↦ rw (e, attempts) (attempt-Told w h)
    | inr (n, e) ↦
        rw (e, attempts)
          (attempts-Told left _ (backoff (bucket_key op) n (attempt env op w).1)
            (by_backoff (bucket_key op) n _ (attempt-Told w h)))
  ]

  remote-Told : Preserves Told (run_remote env op)
  unfolding run_remote
  remote-Told = attempts-Told 6 _

  push-Told : Preserves Told (push env op)
  unfolding push
  push-Told =
      bind-Preserves Told (write_pending env op.entity op.discord_id op.canonical_state) _
        (λ w h. rw (trace-write_pending env w op.entity op.discord_id op.canonical_state) h)
        (λ _. bind-Preserves Told (run_remote env op) _ remote-Told (λ id.
          bind-Preserves Told (confirm env op.entity op.discord_id id) (λ _. pure true)
            (λ w h. rw (trace-confirm env w op.entity op.discord_id id) h) (λ _ w h. h)))

  if-Told :
      {A : Type 0} (b : Bool) (m n : Result A × World)
      → Told m.1
      → Told n.1
      → Told (if b then m else n).1
  if-Told true m n h k = h
  if-Told false m n h k = k

  update-Told : Preserves Told (process_update env op)
  unfolding process_update
  update-Told =
      bind-Preserves Told (get env op.entity op.discord_id) _
        (λ w h. rw (trace-get env w op.entity op.discord_id) h)
        (λ mapping.
          bind-Preserves Told (lift (run_diff op.diff mapping)) _ (λ w h. h)
            (λ equal w h. either equal w h))
    where
      either : (b : Bool) → Preserves Told (if b then pure false else push env op)
      either true w h = h
      either false w h = push-Told w h

  delete-Told : Preserves Told (process_delete env op)
  unfolding process_delete
  delete-Told = bind-Preserves Told (run_remote env op) _ remote-Told (λ _.
      bind-Preserves Told (remove env op.entity op.discord_id) (λ _. pure false)
        (λ w h. rw (trace-remove env w op.entity op.discord_id) h) (λ _ w h. h))

  kind-Told : (kind : OpKind) → Preserves Told (by_kind env kind op)
  kind-Told op_delete = delete-Told
  kind-Told op_create = update-Told
  kind-Told op_update = update-Told

  read-Told : Preserves Told (do get env op.entity op.discord_id; pure false)
  read-Told =
      bind-Preserves Told (get env op.entity op.discord_id) (λ _. pure false)
        (λ w h. rw (trace-get env w op.entity op.discord_id) h) (λ _ w h. h)

  dry_run-Told : (kind : OpKind) → Preserves Told (log_dry_run env kind op)
  unfolding log_dry_run
  dry_run-Told op_delete = λ w h. h
  dry_run-Told op_create = read-Told
  dry_run-Told op_update = read-Told

  queue-Told : Preserves Told (do enqueue env (op_queue_type op) op.canonical_state; pure false)
  queue-Told =
      bind-Preserves Told (enqueue env (op_queue_type op) op.canonical_state) (λ _. pure false)
        (λ w h. rw (trace-enqueue env w (op_queue_type op) op.canonical_state) h) (λ _ w h. h)

  pub process-Told : (dry_run : Bool) → Preserves Told (process env dry_run op)
  unfolding process health_check
  process-Told dry_run w h =
      let w' = record w { asked = w.asked + 1 } in
      if-Told (not (is_empty (degraded (env.discord_ready w.asked) (env.stoat_healthy w.asked)))) _
        _ (queue-Told w' h)
        (if-Told dry_run _ _ (dry_run-Told op.kind w' h) (kind-Told op.kind w' h))
