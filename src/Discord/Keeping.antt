-- ===== src/Discord/Keeping.antt =====
-- What the Apply functions of the ops of internal/discord leave alone: the worlds before and after one of
-- them are related if those before and after each read and each request are.
pub mod Apply
use luars_stoatcord.Prelude.{String, Bool, true, false, Option, List, [], ◌∷◌, ◌==◌, if◌then◌else◌}
use luars_stoatcord.Prelude.Maps.{Map, insert}
use luars_stoatcord.Canonical.Types.{
  Role, StoatRole, Channel, StoatChannel, StoatOverwrite, Category, Message, StoatMessage,
}
use luars_stoatcord.Canonical.Emit.{role_to_stoat, channel_to_stoat, message_to_stoat}
use luars_stoatcord.World.{
  EntityType, role, channel, message, Env, World, Request, edit_role, create_role, delete_role,
  put_role_permissions, edit_channel, create_text_channel, create_voice_channel,
}
use luars_stoatcord.World.Exec.{Exec, pure, raise, bind-cases, ◌>>=◌, ◌>>◌}
use luars_stoatcord.Store.{Mapping, get}
use luars_stoatcord.Store.View.{get-view}
use luars_stoatcord.Engine.Op.{has_stoat_entity}
use luars_stoatcord.Stoat.Client.{
  Client, call, set_role_permissions, set_channel_permissions, is_elevation_role,
  elevation_permissions,
}
use luars_stoatcord.Stoat.Role
use luars_stoatcord.Stoat.Role.{clamp_rank}
use luars_stoatcord.Stoat.Channel
use luars_stoatcord.Stoat.Channel.{
  grant_admins, put_overwrites, apply_channel_overwrites, cannot_grant,
}
use luars_stoatcord.Discord.Gateway.{apply_create_or_edit, apply_delete, ignore, is_active}

-- What every run of an action does to the world.
abbrev pub Keeps {ℓ} : {A : Type 0} → (World → World → Type ℓ) → Exec World A → Type ℓ
Keeps R m = (w : World) → R w (m w).1

-- A request that is not about a role itself.
abbrev pub IsPlain : Request → Type 0
IsPlain (edit_role _ _ _ _ _) = ⊥
IsPlain (delete_role _ _) = ⊥
IsPlain (put_role_permissions _ _ _ _) = ⊥
IsPlain _ = Unit

-- `R` relates the worlds before and after a read of the tables, a plain request, EditRole and
-- DeleteRole, and those before and after several of these.
pub record Kept (env : Env) (c : Client) (R : World → World → Type 0) : Type 0 where
  pub same : (w : World) → R w w
  pub next : (u v w : World) → R u v → R v w → R u w
  pub gets : (t : EntityType) (k : String) → Keeps R (get env t k)
  pub calls : (r : Request) → IsPlain r → Keeps R (call env r)
  pub edits : (server id : String) (r : StoatRole) → Keeps R (Role.edit env c server id r)
  pub deletes : (server id : String) → Keeps R (Role.delete env c server id)

module _ {env : Env} {c : Client} {R : World → World → Type 0} (b : Kept env c R) where
  pub bind-Keeps :
      {A B : Type 0} (m : Exec World A) (f : A → Exec World B)
      → Keeps R m
      → ((a : A) → Keeps R (f a))
      → Keeps R (m >>= f)
  bind-Keeps m f h hf w =
      bind-cases (λ r. R w r.1) m f w (λ a _. b.next w (m w).1 (f a (m w).1).1 (h w) (hf a (m w).1))
        (λ _ _. h w)

  pub then-Keeps :
      {A B : Type 0} (m : Exec World A) (n : Exec World B)
      → Keeps R m
      → Keeps R n
      → Keeps R (m >> n)
  then-Keeps m n h k = bind-Keeps m (λ _. n) h (λ _. k)

  pub branch-Keeps :
      {A : Type 0} (test : Bool) (m n : Exec World A)
      → Keeps R m
      → Keeps R n
      → Keeps R (if test then m else n)
  branch-Keeps true m n h k = h
  branch-Keeps false m n h k = k

  pub ignore-Keeps : (m : Exec World String) → Keeps R m → Keeps R (ignore m)
  ignore-Keeps m h = then-Keeps m (pure tt) h b.same

  pub create_or_edit-Keeps :
      (t : EntityType) (k : String) (edit : String → Exec World (Unit {0}))
      (create : Exec World String)
      → ((id : String) → Keeps R (edit id))
      → Keeps R create
      → Keeps R (apply_create_or_edit env t k edit create)
  unfolding apply_create_or_edit
  create_or_edit-Keeps t k edit create h g = bind-Keeps (get env t k) _ (b.gets t k) (λ m.
      branch-Keeps (has_stoat_entity m) (edit m.stoat_id >> pure m.stoat_id) create
        (then-Keeps (edit m.stoat_id) (pure m.stoat_id) (h m.stoat_id) b.same) g)

  pub delete-Keeps :
      (t : EntityType) (k : String) (del : String → Exec World (Unit {0}))
      → ((id : String) → Keeps R (del id))
      → Keeps R (apply_delete env t k del)
  unfolding apply_delete
  delete-Keeps t k del h = bind-Keeps (get env t k) _ (b.gets t k) (λ m.
      branch-Keeps (is_active m) (del m.stoat_id >> pure "") (pure "")
        (then-Keeps (del m.stoat_id) (pure "") (h m.stoat_id) b.same) b.same)

  pub role_create-Keeps : (server : String) (r : StoatRole) → Keeps R (Role.create env c server r)
  unfolding Role.create
  role_create-Keeps server r =
      bind-Keeps (call env (create_role server r.name)) _ (b.calls _ tt)
        (λ id. then-Keeps (Role.edit env c server id r) (pure id) (b.edits server id r) b.same)

  grants-Keeps : (id : String) (roles : List String) → Keeps R (grant_admins env c id roles)
  unfolding grant_admins set_channel_permissions
  grants-Keeps id [] = b.same
  grants-Keeps id (r ∷ rs) =
      then-Keeps (set_channel_permissions env id r (elevation_permissions c) 0)
        (grant_admins env c id rs) (b.calls _ tt) (grants-Keeps id rs)

  puts-Keeps : (id : String) (m : Map StoatOverwrite) → Keeps R (put_overwrites env c id m)
  unfolding put_overwrites set_channel_permissions
  puts-Keeps id [] = b.same
  puts-Keeps id ((r, ow) ∷ rest) =
      then-Keeps (set_channel_permissions env id r ow.allow ow.deny) (put_overwrites env c id rest)
        (b.calls _ tt) (puts-Keeps id rest)

  overwrites-Keeps :
      (id : String) (m : Map StoatOverwrite) → Keeps R (apply_channel_overwrites env c id m)
  unfolding apply_channel_overwrites
  overwrites-Keeps id m = branch-Keeps (cannot_grant c.admin_roles c.elevation) _ _ b.same (
      then-Keeps (grant_admins env c id c.admin_roles) (put_overwrites env c id m)
        (grants-Keeps id c.admin_roles) (puts-Keeps id m))

  pub channel_create-Keeps :
      (server : String) (ch : StoatChannel) → Keeps R (Channel.create env c server ch)
  unfolding Channel.create
  channel_create-Keeps server ch =
      bind-Keeps
        (call env (
          if ch.kind == "Voice"
          then create_voice_channel server ch.name
          else create_text_channel server ch.name))
        _ (b.calls _ (plain (ch.kind == "Voice")))
        (λ id.
          then-Keeps (apply_channel_overwrites env c id ch.overwrites) (pure id)
            (overwrites-Keeps id ch.overwrites) b.same)
    where
      plain :
          (voice : Bool)
          → IsPlain (
              if voice
              then create_voice_channel server ch.name
              else create_text_channel server ch.name)
      plain true = tt
      plain false = tt

  pub channel_edit-Keeps : (id : String) (ch : StoatChannel) → Keeps R (Channel.edit env c id ch)
  unfolding Channel.edit
  channel_edit-Keeps id ch =
      then-Keeps (call env (edit_channel id ch.name)) _ (b.calls _ tt)
        (overwrites-Keeps id ch.overwrites)
