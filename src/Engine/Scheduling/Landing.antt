-- ===== src/Engine/Scheduling/Landing.antt =====
-- One call of `process` of internal/engine/engine.go among the workers: when it asks for the waiters of
-- its op, and what it does to the mappings of other workers' ops.
use Prim.Native.String.{◌++◌ as concat}
use luars_stoatcord.Prelude.{
  String, ◌≡◌, refl, sym, ap, ap₂, ◌∙◌, subst, Bool, true, false, Bool-cases, inl, inr, arith,
}
use luars_stoatcord.Canonical.Result.{Result, ok, err}
use luars_stoatcord.World.{EntityType, server, message, Env, World, Store}
use luars_stoatcord.World.Exec.{Exec, pure, ◌>>◌, bind-cases}
use luars_stoatcord.Store.{Mapping, get, remove, enqueue}
use luars_stoatcord.Store.View.{view, same_key, active_status}
use luars_stoatcord.Store.Laws.{same_key→eq, same_key_refl}
use luars_stoatcord.Engine.Op.{
  OpKind, op_create, op_update, op_delete, Op, is_message, entity_text, worker_key, op_queue_type,
}
use luars_stoatcord.Engine.Remote.{run_remote}
use luars_stoatcord.Engine.Retries.{KeepsStore}
use luars_stoatcord.Engine.Outcome.{confirmed, Pushed, process-Settled, Settled}
use luars_stoatcord.Engine.Process.{process, process_delete, by_kind, log_dry_run, health_check}
use luars_stoatcord.Engine.Interference.Alone.{nobody, process_among-nobody}
use luars_stoatcord.Engine.Interference.Frame.{process_among-IsAt}
use luars_stoatcord.Engine.Scheduling.{met, status_active}

-- firstUnmetDependency would find the entity of the op met.
abbrev pub IsMet : Op → Store → Type 0
IsMet op s = met (ok (view op.entity op.discord_id s)) ≡ true

-- A result that asks for the waiters comes with a mapping that is active.
abbrev pub Lands : Op → Result Bool × World → Type 0
Lands op (ok true, w) = is_message op.entity ≡ false → IsMet op w.store
Lands op (ok false, w) = Unit
Lands op (err _, w) = Unit

status_active-active :
    (t : EntityType) (stoat_id : String)
    → is_message t ≡ false
    → status_active (active_status t stoat_id) ≡ true
status_active-active message id h = absurd (ground arith)
status_active-active server id h = refl
status_active-active t id h = refl

confirmed-IsMet :
    (op : Op) (stoat_id : String) (m : Mapping)
    → is_message op.entity ≡ false
    → m ≡ confirmed op stoat_id
    → met (ok m) ≡ true
confirmed-IsMet op stoat_id m h e = rw e (status_active-active op.entity stoat_id h)

Pushed-Lands : (op : Op) (s : Store) (r : Result Bool × World) → Pushed op s r → Lands op r
Pushed-Lands op s (ok true, w) (stoat_id, h) = λ m.
    confirmed-IsMet op stoat_id (view op.entity op.discord_id w.store) m
      (ground (arith, h op.entity op.discord_id, same_key_refl op.entity op.discord_id))
Pushed-Lands op s (ok false, w) h = tt
Pushed-Lands op s (err e, w) h = tt

Settled-Lands :
    (op : Op) (kind : OpKind) (s : Store) (r : Result Bool × World)
    → Settled kind op s r
    → (kind ≡ op_delete → Lands op r)
    → Lands op r
Settled-Lands op op_create s r h d = Pushed-Lands op s r h
Settled-Lands op op_update s r h d = Pushed-Lands op s r h
Settled-Lands op op_delete s r h d = d refl

module _ (env : Env) (op : Op) (keeps : KeepsStore op) where
  -- `pure false` at the end asks for no waiters.
  ends-Lands : {A : Type 0} (m : Exec World A) (w : World) → Lands op ((m >> pure false) w)
  ends-Lands m w = bind-cases (Lands op) m (λ _. pure false) w (λ _ _. tt) (λ _ _. tt)

  delete-Lands : (w : World) → Lands op (process_delete env op w)
  unfolding process_delete
  delete-Lands w =
      bind-cases (Lands op) (run_remote env op) _ w
        (λ _ _. ends-Lands (remove env op.entity op.discord_id) (run_remote env op w).1) (λ _ _. tt)

  by_delete-Lands :
      (kind : OpKind) (w : World) → kind ≡ op_delete → Lands op (by_kind env kind op w)
  by_delete-Lands kind w e = rw e (delete-Lands w)

  log-Lands : (kind : OpKind) (w : World) → Lands op (log_dry_run env kind op w)
  unfolding log_dry_run
  log-Lands op_delete w = tt
  log-Lands op_create w = ends-Lands (get env op.entity op.discord_id) w
  log-Lands op_update w = ends-Lands (get env op.entity op.discord_id) w

  -- What `process` asks the waiters for is there.
  pub process-Lands : (dry_run : Bool) (w : World) → Lands op (process env dry_run op w)
  unfolding process
  process-Lands dry_run w = elim (Bool-cases (health_check env w).0) [
    | inr down ↦
        rw down
          (ends-Lands (enqueue env (op_queue_type op) op.canonical_state) (health_check env w).1)
    | inl up ↦ elim (Bool-cases dry_run) [
      | inl dry ↦ rw (up, dry) (log-Lands op.kind (health_check env w).1)
      | inr wet ↦ rw wet (
          Settled-Lands op op.kind w.store (process env false op w)
            (process-Settled env op keeps w up)
            (λ e. rw up (by_delete-Lands op.kind (health_check env w).1 e)))
    ]
  ]

  -- `process` leaves the mapping of another key as it was.
  pub process-other :
      (dry_run : Bool) (w : World) (t : EntityType) (k : String)
      → same_key op.entity op.discord_id t k ≡ false
      → view t k (process env dry_run op w).1.store ≡ view t k w.store
  process-other dry_run w t k other =
      subst (λ r. view t k r.1.store ≡ view t k w.store) (process_among-nobody env op dry_run w)
        (process_among-IsAt env nobody op t k (view t k w.store)
          (record { by_others = λ n v. refl; by_apply = λ v. ap (λ s. view t k s) (keeps v) }) other
          dry_run w refl)

plain_key :
    (p : Op)
    → is_message p.entity ≡ false
    → worker_key p ≡ concat (entity_text p.entity) (concat ":" p.discord_id)
unfolding worker_key
plain_key p h = rw h refl

-- The ops of one entity that is no message have one worker.
pub same_worker :
    (p q : Op)
    → is_message p.entity ≡ false
    → same_key q.entity q.discord_id p.entity p.discord_id ≡ true
    → worker_key q ≡ worker_key p
same_worker p q h e =
    let (t, k) = same_key→eq q.entity q.discord_id p.entity p.discord_id e in
    plain_key q (rw t h)
    ∙ (ap₂ (λ a b. concat (entity_text a) (concat ":" b)) t k ∙ sym (plain_key p h))
