-- ===== src/Discord/Deleting.antt =====
-- What the delete ops of internal/discord/gateway.go leave behind.
use luars_stoatcord.Prelude.{◌∙◌, ℕ, ◌+◌, String, ◌≡◌, refl, ap, some, false, none, ◌∷◌, arith}
use luars_stoatcord.Canonical.Result.{ok, rate_limited}
use luars_stoatcord.World.{role, Env, World, waited}
use luars_stoatcord.Store.{get, remove, no_mapping, is_referenced}
use luars_stoatcord.World.Exec.{Exec}
use luars_stoatcord.Store.Laws.{Outcome-ok, remove-Outcome, same_key_refl}
use luars_stoatcord.Store.View.{view}
use luars_stoatcord.Store.Quiet.{trace-remove}
use luars_stoatcord.Engine.Op.{Op, bucket_key}
use luars_stoatcord.Engine.Remote.{
  Attempt, limited, backoff, returned, run_remote, attempts, attempt, wait,
}
use luars_stoatcord.Engine.Process.{process_delete}
use luars_stoatcord.Stoat.Client.{Client}
use luars_stoatcord.Discord.Gateway.{apply_delete, build_role_delete_op, is_active}

module _ (env : Env) (c : Client) (server k : String) (live : (n : ℕ) → env.db_fails n ≡ false)
    (unblocked : (n : ℕ) → env.wait_fails n ≡ none) where
  get_live :
      (w : World) → get env role k w ≡ (ok (view role k w.store), record w { asked = w.asked + 1 })
  unfolding get view
  get_live w = ground (arith, live w.asked)

  abbrev asked_once : World → World
  asked_once w = record w { asked = w.asked + 1 + 1; trace = waited "servers" ∷ w.trace }

  apply_delete_inactive :
      (del : String → Exec World (Unit {0})) (w : World)
      → is_active (view role k w.store) ≡ false
      → apply_delete env role k del w ≡ (ok "", record w { asked = w.asked + 1 })
  unfolding apply_delete
  apply_delete_inactive del w h = rw (get_live w, h) refl

  attempt_returns :
      (op : Op) (s : String) (w v : World)
      → op.apply (record w { asked = w.asked + 1; trace = waited (bucket_key op) ∷ w.trace })
        ≡ (ok s, v)
      → attempt env op w ≡ (returned (ok s), v)
  unfolding attempt wait
  attempt_returns op s w v e = rw (unblocked w.asked, e) refl

  run_remote_returns :
      (op : Op) (s : String) (w v : World)
      → op.apply (record w { asked = w.asked + 1; trace = waited (bucket_key op) ∷ w.trace })
        ≡ (ok s, v)
      → run_remote env op w ≡ (ok s, v)
  unfolding run_remote attempts
  run_remote_returns op s w v e =
      ap
        (λ (a : Attempt × World). elim a.0 [
          | returned r ↦ (r, a.1)
          | limited n ↦ attempts env 5 op (some (rate_limited n)) (backoff (bucket_key op) n a.1)
        ])
        (attempt_returns op s w v e)

  run_remote_inactive :
      (w : World)
      → is_active (view role k w.store) ≡ false
      → run_remote env (build_role_delete_op env c server k) w ≡ (ok "", asked_once w)
  unfolding build_role_delete_op bucket_key
  run_remote_inactive w h =
      run_remote_returns (build_role_delete_op env c server k) "" w (asked_once w) (
        apply_delete_inactive _
          (record w { asked = w.asked + 1; trace = waited "servers" ∷ w.trace }) h)

  remove_live : (w : World) → (remove env role k w).0 ≡ ok tt
  unfolding remove is_referenced
  remove_live w = rw (live w.asked) refl

  -- While the database answers and no Wait is cancelled, the delete of a role whose mapping is
  -- not active asks Stoat for nothing, even if the mapping has a Stoat id, and the role has no
  -- mapping afterwards.
  pub process_delete_inactive :
      (w : World)
      → is_active (view role k w.store) ≡ false
      → ((process_delete env (build_role_delete_op env c server k) w).1.trace
          ≡ waited "servers" ∷ w.trace)
        × (view role k (process_delete env (build_role_delete_op env c server k) w).1.store
            ≡ no_mapping)
  unfolding process_delete build_role_delete_op
  process_delete_inactive w h =
      rw (run_remote_inactive w h, remove_live (asked_once w))
        (
          trace-remove env (asked_once w) role k,
          Outcome-ok _ _ _ tt (remove_live (asked_once w))
                (remove-Outcome env (asked_once w) role k) role k
              ∙ rw (same_key_refl role k) refl,
        )
