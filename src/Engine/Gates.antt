-- ===== src/Engine/Gates.antt =====
-- What `process` (internal/engine/engine.go) does when it must not write: while a connection is
-- down, in a dry run, and when the stored state already agrees.
use luars_stoatcord.Prelude.{
  ◌+◌, ◌≡◌, refl, ◌↔◌, ◌≢◌, sym, subst, if◌then◌else◌, Bool, true, false, some, [], ◌∷◌, ◌++◌,
  arith,
}
use luars_stoatcord.Canonical.Result.{Result, ok}
use luars_stoatcord.Canonical.Json.{Json}
use luars_stoatcord.World.{Env, World, Store}
use luars_stoatcord.World.Exec.{bind-cases}
use luars_stoatcord.Store.{Mapping, get, enqueue}
use luars_stoatcord.Store.Laws.{same_key_refl}
use luars_stoatcord.Store.View.{view, get-view}
use luars_stoatcord.Store.Quiet.{trace-get}
use luars_stoatcord.Engine.Op.{Op, OpKind, op_create, op_update, op_delete, op_queue_type}
use luars_stoatcord.Engine.Process.{
  process, process_update, by_kind, run_diff, health_check, log_dry_run,
}
use luars_stoatcord.Engine.Outcome.{OpReplaced, intent}

-- Nothing was asked of Stoat or of the limiter, and no table has changed.
abbrev pub Untouched {ℓ} : {A : Type ℓ} → World → A × World → Type 0
Untouched w (_, w') = (w'.trace ≡ w.trace) × (w'.store ≡ w.store)

run_diff-equal :
    (op : Op) (m : Mapping) (d : Json → Result Bool)
    → op.diff ≡ some d
    → m.found ≡ true
    → d m.canonical_state ≡ ok true
    → run_diff op.diff m ≡ ok true
run_diff-equal op m d p q r = rw (p, q) r

module _ (env : Env) (op : Op) where
  Untouched-log_dry_run : (kind : OpKind) (w : World) → Untouched w (log_dry_run env kind op w)
  unfolding log_dry_run
  Untouched-log_dry_run op_delete w = (refl, refl)
  Untouched-log_dry_run _ w =
      bind-cases (Untouched w) (get env op.entity op.discord_id) _ w
        (λ _ _. (trace-get env w _ _, (get-view env w _ _).0))
        (λ _ _. (trace-get env w _ _, (get-view env w _ _).0))

  -- In a dry run, with both connections up, nothing is written and nothing is sent.
  pub process_dry_run :
      (w : World) → (health_check env w).0 ≡ true → Untouched w (process env true op w)
  unfolding process health_check
  process_dry_run w up = rw up (Untouched-log_dry_run op.kind (health_check env w).1)

  -- While a connection is down, also in a dry run, nothing is sent and no mapping changes; the op
  -- is appended to the durable queue unless the driver fails.
  pub process_degraded :
      (dry_run : Bool) (w : World)
      → (health_check env w).0 ≡ false
      → let w' = (process env dry_run op w).1 in
        (w'.trace ≡ w.trace)
        × (w'.store.rows ≡ w.store.rows)
        × (w'.store.messages ≡ w.store.messages)
        × (w'.store.op_queue ≡ (
            if env.db_fails (w.asked + 1)
            then w.store.op_queue
            else w.store.op_queue ++ (op_queue_type op, op.canonical_state) ∷ []))
  unfolding process health_check enqueue
  process_degraded dry_run w down = ground arith

  -- The connections are degraded exactly when one of them is down, and each that is down is named.
  pub health_check_lem :
      (w : World)
      → ((health_check env w).0 ≡ true)
        ↔ ((env.discord_ready w.asked ≡ true) × (env.stoat_healthy w.asked ≡ true))
  unfolding health_check
  health_check_lem w = ground arith

  Untouched-update :
      (d : Json → Result Bool) (w : World)
      → op.diff ≡ some d
      → (view op.entity op.discord_id w.store).found ≡ true
      → d (view op.entity op.discord_id w.store).canonical_state ≡ ok true
      → Untouched w (process_update env op w)
  unfolding process_update
  Untouched-update d w p q r =
      bind-cases (Untouched w) (get env op.entity op.discord_id) _ w
        (λ m e.
          rw
            (run_diff-equal op m d p (subst (λ x. x.found ≡ true) (stored m e) q)
              (subst (λ x. d x.canonical_state ≡ ok true) (stored m e) r))
            (trace-get env w _ _, (get-view env w _ _).0))
        (λ _ _. (trace-get env w _ _, (get-view env w _ _).0))
    where
      stored :
          (m : Mapping)
          → (get env op.entity op.discord_id w).0 ≡ ok m
          → view op.entity op.discord_id w.store ≡ m
      stored m e = sym ((get-view env w op.entity op.discord_id).1 m e)

  Untouched-by_kind :
      (kind : OpKind) (d : Json → Result Bool) (w : World)
      → kind ≢ op_delete
      → op.diff ≡ some d
      → (view op.entity op.discord_id w.store).found ≡ true
      → d (view op.entity op.discord_id w.store).canonical_state ≡ ok true
      → Untouched w (by_kind env kind op w)
  Untouched-by_kind op_create d w k p q r = Untouched-update d w p q r
  Untouched-by_kind op_update d w k p q r = Untouched-update d w p q r
  Untouched-by_kind op_delete d w k p q r = absurd (k refl)

  -- A create or an update whose Diff finds the stored state equal sends nothing and writes nothing,
  -- whatever the status of the mapping.
  pub process_equal :
      (d : Json → Result Bool) (w : World)
      → op.kind ≢ op_delete
      → op.diff ≡ some d
      → (view op.entity op.discord_id w.store).found ≡ true
      → d (view op.entity op.discord_id w.store).canonical_state ≡ ok true
      → (health_check env w).0 ≡ true
      → Untouched w (process env false op w)
  unfolding process health_check
  process_equal d w k p q r up = rw up (Untouched-by_kind op.kind d (health_check env w).1 k p q r)

  -- Once the intent of an op is written, the op is never sent again, although its remote call has
  -- failed and its mapping is still pending: its Diff compares with the intent itself.
  pub failed_push_not_retried :
      (d : Json → Result Bool) (before : Store) (w : World)
      → op.kind ≢ op_delete
      → op.diff ≡ some d
      → d op.canonical_state ≡ ok true
      → OpReplaced op (intent op before) before w.store
      → (health_check env w).0 ≡ true
      → Untouched w (process env false op w)
  failed_push_not_retried d before w k p r h up =
      process_equal d w k p (rw written refl) (rw written r) up
    where
      written : view op.entity op.discord_id w.store ≡ intent op before
      written = ground (arith, h op.entity op.discord_id, same_key_refl op.entity op.discord_id)
