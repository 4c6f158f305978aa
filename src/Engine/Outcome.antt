-- ===== src/Engine/Outcome.antt =====
-- What `process` (internal/engine/engine.go) does to the mapping table, on every branch.
use luars_stoatcord.Prelude.{
  String, ◌≡◌, subst, ◌∙◌, ◌⊎◌, inl, inr, Bool, true, false, if◌then◌else◌,
}
use luars_stoatcord.Canonical.Result.{Result, ok, err}
use luars_stoatcord.World.{Env, World, Store}
use luars_stoatcord.World.Exec.{pure, lift, ◌>>=◌, ◌>>◌, bind-cases}
use luars_stoatcord.Store.{Mapping, no_mapping, get, write_pending, confirm, remove}
use luars_stoatcord.Store.Laws.{
  Replaced, active_mapping, active-after-pending, Outcome-ok, Outcome-err, write_pending-Outcome,
  confirm-Outcome, remove-Outcome,
}
use luars_stoatcord.Store.View.{view, mark_pending, mark_active, replaced, Outcome, get-view}
use luars_stoatcord.Engine.Op.{Op, OpKind, op_create, op_update, op_delete}
use luars_stoatcord.Engine.Remote.{run_remote}
use luars_stoatcord.Engine.Retries.{KeepsStore, store-run_remote}
use luars_stoatcord.Engine.Process.{
  process, process_delete, process_update, push, run_diff, health_check, by_kind,
}

-- The mapping of an op that has been confirmed with a Stoat id.
abbrev pub confirmed : Op → String → Mapping
confirmed op stoat_id = active_mapping op.entity op.canonical_state stoat_id

-- The views of a store after the op's own mapping was replaced.
abbrev pub OpReplaced : Op → Mapping → Store → Store → Type 0
OpReplaced op = Replaced op.entity op.discord_id

-- The intent of an op, over the mapping that was there.
abbrev pub intent : Op → Store → Mapping
intent op s = mark_pending op.entity op.canonical_state (view op.entity op.discord_id s)

-- The end of a create or an update: confirmed, skipped, or failed before or after its intent.
abbrev pub Pushed : Op → Store → Result Bool × World → Type 0
Pushed op s (ok true, w) = (stoat_id : String) × OpReplaced op (confirmed op stoat_id) s w.store
Pushed op s (ok false, w) = w.store ≡ s
Pushed op s (err _, w) = (w.store ≡ s) ⊎ OpReplaced op (intent op s) s w.store

-- The end of a delete: the mapping is gone, or nothing has changed.
abbrev pub Deleted : Op → Store → Result Bool × World → Type 0
Deleted op s (ok _, w) = OpReplaced op no_mapping s w.store
Deleted op s (err _, w) = w.store ≡ s

abbrev pub Settled : OpKind → Op → Store → Result Bool × World → Type 0
Settled op_delete op s r = Deleted op s r
Settled _ op s r = Pushed op s r

module _ (env : Env) (op : Op) (keeps : KeepsStore op) where
  Pushed-confirm :
      (s : Store) (stoat_id : String) (w : World)
      → OpReplaced op (intent op s) s w.store
      → Pushed op s ((confirm env op.entity op.discord_id stoat_id >> pure true) w)
  Pushed-confirm s stoat_id w h =
      bind-cases (Pushed op s) (confirm env op.entity op.discord_id stoat_id) (λ _. pure true) w
        (λ x e. (
          stoat_id,
          active-after-pending op.entity op.discord_id op.canonical_state stoat_id s w.store _ h
              (Outcome-ok _ _ _ x e outcome),
        ))
        (λ x e. inr (rw (Outcome-err _ _ _ x e outcome) h))
    where
      outcome : Outcome (confirm env op.entity op.discord_id stoat_id w) w.store (
          replaced op.entity op.discord_id
            (mark_active op.entity stoat_id (view op.entity op.discord_id w.store))
            w.store)
      outcome = confirm-Outcome env w op.entity op.discord_id stoat_id

  Pushed-remote :
      (s : Store) (w : World)
      → OpReplaced op (intent op s) s w.store
      → Pushed op s (
          (run_remote env op >>= λ stoat_id.
          confirm env op.entity op.discord_id stoat_id >> pure true)
            w)
  Pushed-remote s w h =
      bind-cases (Pushed op s) (run_remote env op) _ w
        (λ stoat_id e. Pushed-confirm s stoat_id _ (rw (store-run_remote env op keeps w) h))
        (λ x e. inr (rw (store-run_remote env op keeps w) h))

  Pushed-push : (w : World) → Pushed op w.store (push env op w)
  unfolding push
  Pushed-push w =
      bind-cases (Pushed op w.store) (write_pending env op.entity op.discord_id op.canonical_state)
        _ w (λ x e. Pushed-remote w.store _ (Outcome-ok _ _ _ x e outcome))
        (λ x e. inl (Outcome-err _ _ _ x e outcome))
    where
      outcome :
          Outcome
            (write_pending env op.entity op.discord_id op.canonical_state w)
            w.store
            (replaced op.entity op.discord_id (intent op w.store) w.store)
      outcome = write_pending-Outcome env w op.entity op.discord_id op.canonical_state

  Pushed-diffed :
      (s : Store) (equal : Bool) (w : World)
      → w.store ≡ s
      → Pushed op s ((if equal then pure false else push env op) w)
  Pushed-diffed s true w h = h
  Pushed-diffed s false w h = subst (λ x. Pushed op x (push env op w)) h (Pushed-push w)

  Pushed-update : (w : World) → Pushed op w.store (process_update env op w)
  unfolding process_update
  Pushed-update w =
      bind-cases (Pushed op w.store) (get env op.entity op.discord_id) _ w
        (λ m e.
          bind-cases (Pushed op w.store) (lift (run_diff op.diff m)) _ (got w).1
            (λ equal _. Pushed-diffed w.store equal (got w).1 (same w)) (λ _ _. inl (same w)))
        (λ x e. inl (same w))
    where
      got : World → Result Mapping × World
      got w = get env op.entity op.discord_id w

      same : (w : World) → (got w).1.store ≡ w.store
      same w = (get-view env w op.entity op.discord_id).0

  Deleted-delete : (w : World) → Deleted op w.store (process_delete env op w)
  unfolding process_delete
  Deleted-delete w =
      bind-cases (Deleted op w.store) (run_remote env op) _ w
        (λ _ _.
          bind-cases (Deleted op w.store) (remove env op.entity op.discord_id) _ (called w).1
            (λ x e.
              subst
                (λ s.
                  OpReplaced op no_mapping s
                    (remove env op.entity op.discord_id (called w).1).1.store)
                (store-run_remote env op keeps w) (Outcome-ok _ _ _ x e (outcome w)))
            (λ x e. Outcome-err _ _ _ x e (outcome w) ∙ store-run_remote env op keeps w))
        (λ _ _. store-run_remote env op keeps w)
    where
      called : World → Result String × World
      called w = run_remote env op w

      outcome :
          (w : World)
          → Outcome
              (remove env op.entity op.discord_id (called w).1)
              (called w).1.store
              (replaced op.entity op.discord_id no_mapping (called w).1.store)
      outcome w = remove-Outcome env (called w).1 op.entity op.discord_id

  Settled-by_kind : (kind : OpKind) (w : World) → Settled kind op w.store (by_kind env kind op w)
  Settled-by_kind op_create w = Pushed-update w
  Settled-by_kind op_update w = Pushed-update w
  Settled-by_kind op_delete w = Deleted-delete w

  -- With both connections up and no dry run, for an op whose Apply leaves the tables alone: a
  -- create or an update ends confirmed, skipped, or failed with at most its intent written; a
  -- delete ends with the mapping gone, or failed with the tables as they were. No other mapping
  -- changes.
  pub process-Settled :
      (w : World)
      → (health_check env w).0 ≡ true
      → Settled op.kind op w.store (process env false op w)
  unfolding process health_check
  process-Settled w up = rw up (Settled-by_kind op.kind (health_check env w).1)
