-- ===== src/Engine/Interference/Preserved.antt =====
-- `process` of internal/engine/engine.go among other goroutines keeps what each of its writes, Apply and
-- the others keep of the tables.
use luars_stoatcord.Prelude.{
  sym, subst, Option-cases, inl, inr, not, ℕ, String, Option, none, some, zero, suc, Bool, true,
  false, inl, inr, if◌then◌else◌,
}
use luars_stoatcord.Canonical.Result.{Result, ok, err, Error, rate_limited, failed}
use luars_stoatcord.Canonical.Json.{Json}
use luars_stoatcord.World.{EntityType, Env, World, Store}
use luars_stoatcord.World.Exec.{Exec, pure, lift, ◌>>=◌, ◌>>◌, Preserves, bind-Preserves}
use luars_stoatcord.Store.{Mapping, get, write_pending, confirm, remove, enqueue}
use luars_stoatcord.Store.View.{get-view}
use luars_stoatcord.Engine.Op.{
  Op, OpKind, op_create, op_update, op_delete, op_queue_type, bucket_key,
}
use luars_stoatcord.Engine.Remote.{run_remote, attempt, attempts, wait, after_apply, backoff}
use luars_stoatcord.Engine.Retries.{Attempt-cases, tried}
use luars_stoatcord.Engine.Process.{run_diff, health_check, log_dry_run}
use luars_stoatcord.Engine.Interference.{
  send_among, confirm_among, forget_among, compare_among, push_unless, meanwhile, delete_among,
  push_among, update_among, by_kind_among, process_among,
}

-- What holds of the tables
abbrev pub On : (Store → Type 0) → World → Type 0
On P w = P w.store

-- The others and Apply keep `P`.
pub record Steady (others : ℕ → World → World) (op : Op) (P : Store → Type 0) : Type 0 where
  pub by_others : (n : ℕ) (w : World) → P w.store → P (others n w).store
  pub by_apply : (w : World) → P w.store → P (op.apply w).1.store

-- The writes of the engine for the op keep `P`.
pub record Written (env : Env) (op : Op) (P : Store → Type 0) : Type 0 where
  pub by_pending : Preserves (On P) (write_pending env op.entity op.discord_id op.canonical_state)
  pub by_confirm :
      (stoat_id : String) → Preserves (On P) (confirm env op.entity op.discord_id stoat_id)
  pub by_remove : Preserves (On P) (remove env op.entity op.discord_id)
  pub by_enqueue : (s : String) (j : Json) → Preserves (On P) (enqueue env s j)

module _ (env : Env) (others : ℕ → World → World) (op : Op) (P : Store → Type 0)
    (steady : Steady others op P) where
  pub meanwhile-On : (n : ℕ) → Preserves (On P) (meanwhile env others n)
  meanwhile-On n w h = steady.by_others n w h

  attempt-On : (w : World) → On P w → On P (attempt env op w).1
  unfolding attempt wait
  attempt-On w h = elim (Option-cases (env.wait_fails w.asked)) [
    | inl e ↦ rw e (after_apply-On (op.apply (tried op w)) (steady.by_apply (tried op w) h))
    | inr (x, e) ↦ rw e h
  ]
    where
      after_apply-On : (r : Result String × World) → On P r.1 → On P (after_apply r.0 r.1).1
      after_apply-On (ok id, v) g = g
      after_apply-On (err (rate_limited n), v) g = g
      after_apply-On (err (failed x), v) g = g

  attempts-On : (left : ℕ) (last : Option Error) → Preserves (On P) (attempts env left op last)
  unfolding attempts
  attempts-On zero last w h = h
  attempts-On (suc left) last w h = elim (Attempt-cases (attempt env op w).0) [
    | inl (r, e) ↦ rw (e, attempts) (attempt-On w h)
    | inr (n, e) ↦
        rw (e, attempts)
          (attempts-On left (some (rate_limited n)) (backoff (bucket_key op) n (attempt env op w).1)
            (attempt-On w h))
  ]

  pub run_remote-On : Preserves (On P) (run_remote env op)
  unfolding run_remote
  run_remote-On = attempts-On 6 none

  pub get-On : (t : EntityType) (k : String) → Preserves (On P) (get env t k)
  get-On t k w h = subst P (sym (get-view env w t k).0) h

  lift-On : {A : Type 0} (r : Result A) → Preserves (On P) (lift r)
  lift-On r w h = h

  module _ (writes : Written env op P) where
    after-On :
        (n : ℕ) {A : Type 0} (f : Exec World A)
        → Preserves (On P) f
        → Preserves (On P) (meanwhile env others n >> f)
    after-On n f h =
        bind-Preserves (On P) (meanwhile env others n) (λ _. f) (meanwhile-On n) (λ _. h)

    finally-On :
        {A : Type 0} (f : Exec World A) (b : Bool)
        → Preserves (On P) f
        → Preserves (On P) (f >> pure b)
    finally-On f b h = bind-Preserves (On P) f (λ _. pure b) h (λ _ w r. r)

    send-On : Preserves (On P) (run_remote env op >>= confirm_among env others op)
    send-On =
        bind-Preserves (On P) (run_remote env op) (confirm_among env others op) (run_remote-On)
          (λ id.
            after-On 3 (confirm env op.entity op.discord_id id >> pure true)
              (finally-On (confirm env op.entity op.discord_id id) true (writes.by_confirm id)))

    push-On : Preserves (On P) (push_among env others op)
    unfolding push_among
    push-On =
        bind-Preserves (On P) (write_pending env op.entity op.discord_id op.canonical_state)
          (λ _. send_among env others op) writes.by_pending
          (λ _. after-On 2 (run_remote env op >>= confirm_among env others op) send-On)

    unless-On : (equal : Bool) → Preserves (On P) (push_unless env others op equal)
    unless-On true w h = h
    unless-On false w h = push-On w h

    compare-On : (mapping : Mapping) → Preserves (On P) (compare_among env others op mapping)
    compare-On mapping =
        after-On 1 (lift (run_diff op.diff mapping) >>= push_unless env others op) (
          bind-Preserves (On P) (lift (run_diff op.diff mapping)) (push_unless env others op)
            (lift-On (run_diff op.diff mapping)) unless-On)

    update-On : Preserves (On P) (update_among env others op)
    unfolding update_among
    update-On =
        bind-Preserves (On P) (get env op.entity op.discord_id) (compare_among env others op)
          (get-On op.entity op.discord_id) compare-On

    delete-On : Preserves (On P) (delete_among env others op)
    unfolding delete_among
    delete-On =
        bind-Preserves (On P) (run_remote env op) (λ _. forget_among env others op) (run_remote-On)
          (λ _.
            after-On 4 (remove env op.entity op.discord_id >> pure false)
              (finally-On (remove env op.entity op.discord_id) false writes.by_remove))

    by_kind-On : (kind : OpKind) → Preserves (On P) (by_kind_among env others kind op)
    by_kind-On op_create = update-On
    by_kind-On op_update = update-On
    by_kind-On op_delete = delete-On

    logged-On : Preserves (On P) (get env op.entity op.discord_id >> pure false)
    logged-On = finally-On (get env op.entity op.discord_id) false (get-On op.entity op.discord_id)

    log-On : (kind : OpKind) → Preserves (On P) (log_dry_run env kind op)
    unfolding log_dry_run
    log-On op_delete = λ w h. h
    log-On op_create = logged-On
    log-On op_update = logged-On

    branches-On :
        (healthy dry_run : Bool)
        → Preserves (On P) (λ w.
          if not healthy
          then (meanwhile env others 0
                >> (enqueue env (op_queue_type op) op.canonical_state >> pure false))
              w
          else if dry_run
          then (meanwhile env others 0 >> log_dry_run env op.kind op) w
          else (meanwhile env others 0 >> by_kind_among env others op.kind op) w)
    branches-On false dry_run =
        after-On 0 (enqueue env (op_queue_type op) op.canonical_state >> pure false) (
          finally-On (enqueue env (op_queue_type op) op.canonical_state) false
            (writes.by_enqueue (op_queue_type op) op.canonical_state))
    branches-On true true = after-On 0 (log_dry_run env op.kind op) (log-On op.kind)
    branches-On true false = after-On 0 (by_kind_among env others op.kind op) (by_kind-On op.kind)

    -- Whatever happens meanwhile, and however it ends, `process` keeps what the others, Apply and each
    -- of its writes keep.
    pub process_among-On : (dry_run : Bool) → Preserves (On P) (process_among env others dry_run op)
    unfolding process_among health_check
    process_among-On dry_run w h =
        branches-On (health_check env w).0 dry_run (health_check env w).1 h
