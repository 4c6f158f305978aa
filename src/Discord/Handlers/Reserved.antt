-- ===== src/Discord/Handlers/Reserved.antt =====
-- What the ops of internal/discord leave to internal/engine: the mapping tables and the limiter.
use luars_stoatcord.Prelude.{String, ◌≡◌, refl, ap, ◌∙◌, Bool-cases, inl, inr}
use luars_stoatcord.Canonical.Types.{Role, StoatRole}
use luars_stoatcord.World.{EntityType, Env, World, Request, edit_role}
use luars_stoatcord.World.Exec.{bind-cases}
use luars_stoatcord.Store.{get}
use luars_stoatcord.Store.View.{get-view}
use luars_stoatcord.Store.Quiet.{trace-get}
use luars_stoatcord.Engine.Op.{OpKind}
use luars_stoatcord.Engine.Retries.{waits, backoffs, Unlimited, KeepsStore}
use luars_stoatcord.Stoat.Client.{Client, call, set_role_permissions, is_elevation_role}
use luars_stoatcord.Stoat.Role
use luars_stoatcord.Stoat.Role.{clamp_rank}
use luars_stoatcord.Discord.Gateway.{build_role_op}
use luars_stoatcord.Discord.Keeping.{Keeps, Kept}
use luars_stoatcord.Discord.Handlers.{Setup}
use luars_stoatcord.Discord.Handlers.Built.{Built}
use luars_stoatcord.Discord.Handlers.Keeping.{build_role_op-Keeps, ops-Applies}

-- Every request counts, those about a role too.
module _ (env : Env) (c : Client) (R : World → World → Type 0) (same : (w : World) → R w w)
    (next : (u v w : World) → R u v → R v w → R u w)
    (gets : (t : EntityType) (k : String) → Keeps R (get env t k))
    (calls : (r : Request) → Keeps R (call env r)) where
  edits : (server id : String) (r : StoatRole) → Keeps R (Role.edit env c server id r)
  unfolding Role.edit set_role_permissions
  edits server id r w = elim (Bool-cases (is_elevation_role c id)) [
    | inl e ↦ rw e (same w)
    | inr e ↦
        let first = call env (edit_role server id r.colour r.hoist (clamp_rank r.rank)) in
        rw e (
          bind-cases (λ x. R w x.1) first _ w (λ a _. next w (first w).1 _ (calls _ w) (calls _ _))
            (λ _ _. calls _ w))
  ]

  deletes : (server id : String) → Keeps R (Role.delete env c server id)
  unfolding Role.delete
  deletes server id w = elim (Bool-cases (is_elevation_role c id)) [
    | inl e ↦ rw e (same w)
    | inr e ↦ rw e (calls _ w)
  ]

  kept : Kept env c R
  kept = record {
    same = same;
    next = next;
    gets = gets;
    calls = λ r _. calls r;
    edits = edits;
    deletes = deletes;
  }

module _ (env : Env) (c : Client) where
  tables_kept : Kept env c (λ w w'. w'.store ≡ w.store)
  unfolding call
  tables_kept =
      kept env c (λ w w'. w'.store ≡ w.store) (λ w. refl) (λ u v w h k. k ∙ h)
        (λ t k w. (get-view env w t k).0) (λ r w. refl)

  -- The calls of the limiter so far are the same.
  abbrev Uncalled : World → World → Type 0
  Uncalled w w' = (waits w'.trace ≡ waits w.trace) × (backoffs w'.trace ≡ backoffs w.trace)

  limiter_kept : Kept env c Uncalled
  unfolding call
  limiter_kept =
      kept env c Uncalled (λ w. (refl, refl)) (λ u v w h k. (k.0 ∙ h.0, k.1 ∙ h.1))
        (λ t k w. (ap waits (trace-get env w t k), ap backoffs (trace-get env w t k)))
        (λ r w. (refl, refl))

  pub build_role_op-KeepsStore :
      (server : String) (r : Role) (kind : OpKind) → KeepsStore (build_role_op env kind server c r)
  build_role_op-KeepsStore = build_role_op-Keeps tables_kept

pub ops-KeepsStore : (x : Setup) → Built x KeepsStore
ops-KeepsStore x = ops-Applies x (tables_kept x.env x.client)

pub ops-Unlimited : (x : Setup) → Built x Unlimited
ops-Unlimited x = ops-Applies x (limiter_kept x.env x.client)
