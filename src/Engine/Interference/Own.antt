-- ===== src/Engine/Interference/Own.antt =====
-- `process` of internal/engine/engine.go among other goroutines, and the mapping of its op.
use luars_stoatcord.Prelude.{ℕ, String, ◌≡◌, refl, ◌∙◌, ap, ◌⊎◌, Bool, true, false, inl, inr, arith}
use luars_stoatcord.Canonical.Result.{Result, ok, err, Error}
use luars_stoatcord.World.{EntityType, Env, World, Store}
use luars_stoatcord.World.Exec.{pure, lift, ◌>>◌, bind-cases}
use luars_stoatcord.Store.{Mapping, no_mapping, get, write_pending, confirm, remove}
use luars_stoatcord.Store.View.{view, mark_pending, mark_active, replaced, Outcome}
use luars_stoatcord.Store.Laws.{
  write_pending-Outcome, confirm-Outcome, remove-Outcome, Outcome-ok, Outcome-err, same_key_refl,
}
use luars_stoatcord.Engine.Op.{Op, OpKind, op_create, op_update, op_delete}
use luars_stoatcord.Engine.Remote.{run_remote}
use luars_stoatcord.Engine.Outcome.{confirmed}
use luars_stoatcord.Engine.Process.{run_diff, health_check}
use luars_stoatcord.Engine.Interference.{
  send_among, confirm_among, forget_among, compare_among, push_unless, delete_among, push_among,
  update_among, by_kind_among, process_among, Undisturbed,
}
use luars_stoatcord.Engine.Interference.Frame.{IsAt, IsAt-Steady}
use luars_stoatcord.Engine.Interference.Preserved.{Steady, meanwhile-On, run_remote-On, get-On}

-- The mapping of the op is `m`.
abbrev pub OwnIs : Op → Mapping → World → Type 0
OwnIs op m w = view op.entity op.discord_id w.store ≡ m

abbrev pub intent_over : Op → Mapping → Mapping
intent_over op m = mark_pending op.entity op.canonical_state m

-- The end of a create or an update over `m`: confirmed, skipped, or failed before or after its intent.
abbrev pub OwnPushed : Op → Mapping → Result Bool × World → Type 0
OwnPushed op m (ok true, w) = (stoat_id : String) × OwnIs op (confirmed op stoat_id) w
OwnPushed op m (ok false, w) = OwnIs op m w
OwnPushed op m (err _, w) = OwnIs op m w ⊎ OwnIs op (intent_over op m) w

-- The end of a delete: the mapping is gone, or it has not changed.
abbrev pub OwnDeleted : Op → Mapping → Result Bool × World → Type 0
OwnDeleted op m (ok _, w) = OwnIs op no_mapping w
OwnDeleted op m (err _, w) = OwnIs op m w

abbrev pub OwnSettled : OpKind → Op → Mapping → Result Bool × World → Type 0
OwnSettled op_delete op m r = OwnDeleted op m r
OwnSettled _ op m r = OwnPushed op m r

written_own :
    (op : Op) (x : Mapping) (p : Result (Unit {0}) × World) (s : Store) (y : Unit {0})
    → p.0 ≡ ok y
    → Outcome p s (replaced op.entity op.discord_id x s)
    → OwnIs op x p.1
written_own op x p s y e h =
    ground
      (arith, Outcome-ok p s _ y e h op.entity op.discord_id, same_key_refl op.entity op.discord_id)

failed_own :
    (op : Op) (f : EntityType → String → Mapping) (p : Result (Unit {0}) × World) (s : Store)
    (y : Error) (m : Mapping)
    → p.0 ≡ err y
    → Outcome p s f
    → view op.entity op.discord_id s ≡ m
    → OwnIs op m p.1
failed_own op f p s y m e h own = rw (Outcome-err p s f y e h) own

module _ (env : Env) (others : ℕ → World → World) (op : Op)
    (u : Undisturbed others op op.entity op.discord_id) where
  abbrev OwnAt : Mapping → Store → Type 0
  OwnAt m = IsAt op.entity op.discord_id m

  steady : (m : Mapping) → Steady others op (OwnAt m)
  steady m = IsAt-Steady env op op.entity op.discord_id m others u

  meanwhile-Own : (n : ℕ) (m : Mapping) (w : World) → OwnIs op m w → OwnIs op m (others n w)
  meanwhile-Own n m w h = meanwhile-On env others op (OwnAt m) (steady m) n w h

  remote-Own : (m : Mapping) (w : World) → OwnIs op m w → OwnIs op m (run_remote env op w).1
  remote-Own m w h = run_remote-On env others op (OwnAt m) (steady m) w h

  confirm-Own :
      (m : Mapping) (stoat_id : String) (w : World)
      → OwnIs op (intent_over op m) w
      → OwnPushed op m ((confirm env op.entity op.discord_id stoat_id >> pure true) w)
  confirm-Own m stoat_id w h =
      bind-cases (OwnPushed op m) (confirm env op.entity op.discord_id stoat_id) (λ _. pure true) w
        (λ y e. (
          stoat_id,
          written_own op _ _ w.store y e outcome ∙ ap (mark_active op.entity stoat_id) h,
        ))
        (λ y e. inr (failed_own op _ _ w.store y (intent_over op m) e outcome h))
    where
      outcome : Outcome (confirm env op.entity op.discord_id stoat_id w) w.store (
          replaced op.entity op.discord_id
            (mark_active op.entity stoat_id (view op.entity op.discord_id w.store))
            w.store)
      outcome = confirm-Outcome env w op.entity op.discord_id stoat_id

  send-Own :
      (m : Mapping) (w : World)
      → OwnIs op (intent_over op m) w
      → OwnPushed op m (send_among env others op w)
  send-Own m w h =
      bind-cases (OwnPushed op m) (run_remote env op) (confirm_among env others op) (others 2 w)
        (λ stoat_id _. confirm-Own m stoat_id (others 3 called) (meanwhile-Own 3 _ called after))
        (λ _ _. inr after)
    where
      called : World
      called = (run_remote env op (others 2 w)).1

      after : OwnIs op (intent_over op m) called
      after = remote-Own _ (others 2 w) (meanwhile-Own 2 _ w h)

  push-Own : (m : Mapping) (w : World) → OwnIs op m w → OwnPushed op m (push_among env others op w)
  unfolding push_among
  push-Own m w h =
      bind-cases (OwnPushed op m) (write_pending env op.entity op.discord_id op.canonical_state)
        (λ _. send_among env others op) w
        (λ y e. send-Own m _ (written_own op _ _ w.store y e outcome ∙ ap (intent_over op) h))
        (λ y e. inl (failed_own op _ _ w.store y m e outcome h))
    where
      outcome : Outcome (write_pending env op.entity op.discord_id op.canonical_state w) w.store (
          replaced op.entity op.discord_id
            (intent_over op (view op.entity op.discord_id w.store))
            w.store)
      outcome = write_pending-Outcome env w op.entity op.discord_id op.canonical_state

  unless-Own :
      (m : Mapping) (equal : Bool) (w : World)
      → OwnIs op m w
      → OwnPushed op m (push_unless env others op equal w)
  unless-Own m true w h = h
  unless-Own m false w h = push-Own m w h

  update-Own :
      (m : Mapping) (w : World) → OwnIs op m w → OwnPushed op m (update_among env others op w)
  unfolding update_among
  update-Own m w h =
      bind-cases (OwnPushed op m) (get env op.entity op.discord_id) (compare_among env others op) w
        (λ mapping _.
          bind-cases (OwnPushed op m) (lift (run_diff op.diff mapping)) (push_unless env others op)
            (others 1 got)
            (λ equal _. unless-Own m equal (others 1 got) (meanwhile-Own 1 m got same))
            (λ _ _. inl (meanwhile-Own 1 m got same)))
        (λ _ _. inl same)
    where
      got : World
      got = (get env op.entity op.discord_id w).1

      same : OwnIs op m got
      same = get-On env others op (OwnAt m) (steady m) op.entity op.discord_id w h

  delete-Own :
      (m : Mapping) (w : World) → OwnIs op m w → OwnDeleted op m (delete_among env others op w)
  unfolding delete_among
  delete-Own m w h =
      bind-cases (OwnDeleted op m) (run_remote env op) (λ _. forget_among env others op) w
        (λ _ _.
          bind-cases (OwnDeleted op m) (remove env op.entity op.discord_id) (λ _. pure false) later
            (λ y e. written_own op no_mapping _ later.store y e outcome)
            (λ y e.
              failed_own op _ _ later.store y m e outcome
                (meanwhile-Own 4 m called (remote-Own m w h))))
        (λ _ _. remote-Own m w h)
    where
      called : World
      called = (run_remote env op w).1

      later : World
      later = others 4 called

      outcome :
          Outcome
            (remove env op.entity op.discord_id later)
            later.store
            (replaced op.entity op.discord_id no_mapping later.store)
      outcome = remove-Outcome env later op.entity op.discord_id

  by_kind-Own :
      (kind : OpKind) (m : Mapping) (w : World)
      → OwnIs op m w
      → OwnSettled kind op m (by_kind_among env others kind op w)
  by_kind-Own op_create m w h = update-Own m w h
  by_kind-Own op_update m w h = update-Own m w h
  by_kind-Own op_delete m w h = delete-Own m w h

  -- With both connections up and no dry run, whatever the other goroutines do between the calls of
  -- `process` and during Apply, provided that neither they nor Apply change the mapping of the op's
  -- key: a create or an update ends confirmed, skipped, or failed with at most its intent written
  -- over the mapping that was there; a delete ends with the mapping gone, or failed with the
  -- mapping as it was.
  pub process_among-OwnSettled :
      (w : World)
      → (health_check env w).0 ≡ true
      → OwnSettled op.kind op
          (view op.entity op.discord_id w.store)
          (process_among env others false op w)
  unfolding process_among health_check
  process_among-OwnSettled w up = rw up (
      by_kind-Own op.kind _ (others 0 (health_check env w).1)
        (meanwhile-Own 0 _ (health_check env w).1 refl))
