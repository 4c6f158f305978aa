-- ===== src/Discord/Applying.antt =====
-- What the create-or-edit Apply functions of internal/discord/gateway.go keep of an entity that is
-- on Stoat already.
use luars_stoatcord.Prelude.{ℕ, String, ◌≡◌, refl, ap, ◌∙◌, true, false, ◌==◌, Bool-cases, inl, inr}
use luars_stoatcord.Canonical.Result.{Result}
use luars_stoatcord.Canonical.Types.{Role, StoatRole}
use luars_stoatcord.World.{EntityType, role, Env, World, edit_role}
use luars_stoatcord.World.Exec.{Exec, pure, bind-cases, Preserves, bind-Preserves}
use luars_stoatcord.Store.{Mapping, get}
use luars_stoatcord.Store.View.{view, get-view}
use luars_stoatcord.Store.Quiet.{trace-get}
use luars_stoatcord.Engine.Op.{OpKind, has_stoat_entity}
use luars_stoatcord.Engine.Process.{push}
use luars_stoatcord.Stoat.Client.{Client, call, set_role_permissions, is_elevation_role}
use luars_stoatcord.Stoat.Role
use luars_stoatcord.Stoat.Role.{clamp_rank}
use luars_stoatcord.Canonical.Emit.{role_to_stoat}
use luars_stoatcord.Discord.Gateway.{apply_create_or_edit, build_role_op, ignore}
use luars_stoatcord.Engine.Stable.{creates, Stable, Returns, Stable-same, push-Stable}

module _ (t : EntityType) (k s : String) (n : ℕ) where
  abbrev Here : World → Type 0
  Here = Stable t k s n

  module _ (env : Env) (present : (s == "") ≡ false) where
    -- An edit that creates nothing keeps the identity of an entity that is there.
    apply_create_or_edit-Returns :
        (edit : String → Exec World (Unit {0})) (create : Exec World String)
        → ((id : String) (w : World) → Here w → Here (edit id w).1)
        → (w : World) → Here w
        → Returns t k s n (apply_create_or_edit env t k edit create w)
    unfolding apply_create_or_edit has_stoat_entity
    apply_create_or_edit-Returns edit create keeps w (f, i, c) =
        bind-cases (Returns t k s n) (get env t k) _ w
          (λ m e.
            let v = (get-view env w t k).1 m e in
            rw
              (ap (λ (x : Mapping). x.found) v ∙ f, ap (λ (x : Mapping). x.stoat_id) v ∙ i, present)
              (bind-cases (Returns t k s n) (edit s) (λ _. pure s) (got.1)
                (λ _ _. (keeps s got.1 after, refl)) (λ _ _. keeps s got.1 after)))
          (λ _ _. after)
      where
        got : Result Mapping × World
        got = get env t k w

        after : Here got.1
        after = Stable-same t k s n w got.1 (get-view env w t k).0 (trace-get env w t k) (f, i, c)

  edit-Stable :
      (env : Env) (c : Client) (server id : String) (r : StoatRole) (w : World)
      → Here w
      → Here (ignore (Role.edit env c server id r) w).1
  unfolding Role.edit call set_role_permissions
  edit-Stable env c server id r w g =
      bind-Preserves Here (Role.edit env c server id r) (λ _. pure tt) edited (λ _ _ h. h) w g
    where
      edited : Preserves Here (Role.edit env c server id r)
      edited w h = elim (Bool-cases (is_elevation_role c id)) [
        | inl p ↦ rw p h
        | inr p ↦ rw p (
            bind-Preserves Here
              (call env (edit_role server id r.colour r.hoist (clamp_rank r.rank))) _ (λ _ h. h)
              (λ _ _ h. h) w h)
      ]

-- The push of a role whose mapping has a Stoat id asks Stoat to create nothing, and leaves the
-- role mapped to the same Stoat id, whatever fails on the way.
pub push-bound_role :
    (env : Env) (c : Client) (server : String) (kind : OpKind) (r : Role) (s : String) (w : World)
    → (s == "") ≡ false
    → (view role r.id w.store).found ≡ true
    → (view role r.id w.store).stoat_id ≡ s
    → ((view role r.id (push env (build_role_op env kind server c r) w).1.store).stoat_id ≡ s)
      × (creates (push env (build_role_op env kind server c r) w).1.trace ≡ creates w.trace)
unfolding build_role_op
push-bound_role env c server kind r s w present f i =
    let (_, x, y) =
      push-Stable s (creates w.trace) env (build_role_op env kind server c r)
        (apply_create_or_edit-Returns role r.id s (creates w.trace) env present _ _
          (λ id. edit-Stable role r.id s (creates w.trace) env c server id (role_to_stoat r)))
        w (f, i, refl) in
    (x, y)
