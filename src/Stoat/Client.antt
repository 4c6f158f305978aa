-- ===== src/Stoat/Client.antt =====
-- internal/stoat/client.go, the requests of permission.go, and the accessors of elevation.go.
use luars_stoatcord.Prelude.{
  ℕ, ◌+◌, String, Bool, false, Option, none, some, List, ◌∷◌, ◌==◌, if◌then◌else◌,
}
use luars_stoatcord.Canonical.Result.{Result}
use luars_stoatcord.World.{
  Env, World, Request, put_channel_permissions, put_role_permissions, requested, ServerInfo,
  ChannelInfo,
}
use luars_stoatcord.World.Exec.{Exec, ◌>>=◌}

pub record ElevationRole : Type 0 where
  pub id : String
  pub permissions : ℕ

pub record Client : Type 0 where
  pub elevation : Option ElevationRole
  pub admin_roles : List String

unfoldable pub set_admin_role_ids : List String → Client → Client
set_admin_role_ids ids c = record c { admin_roles = ids }

abbrev role_id_or_empty : Option ElevationRole → String
role_id_or_empty none = ""
role_id_or_empty (some r) = r.id

abbrev permissions_or_zero : Option ElevationRole → ℕ
permissions_or_zero none = 0
permissions_or_zero (some r) = r.permissions

abbrev is_role : Option ElevationRole → String → Bool
is_role none id = false
is_role (some r) id = r.id == id

unfoldable pub elevation_role_id : Client → String
elevation_role_id c = role_id_or_empty c.elevation

unfoldable pub elevation_permissions : Client → ℕ
elevation_permissions c = permissions_or_zero c.elevation

unfoldable pub is_elevation_role : Client → String → Bool
is_elevation_role c id = is_role c.elevation id

-- the sentinel role id of a channel's default overwrite
abbrev pub default_role_id : String
default_role_id = "default"

module _ (env : Env) where
  -- One write to the Stoat server: it leaves the mapping tables alone.
  unfoldable pub call : Request → Exec World String
  call r w = (env.answer w.asked r, record w { asked = w.asked + 1; trace = requested r ∷ w.trace })

  abbrev ask {ℓ} : {A : Type ℓ} → (ℕ → Result A) → World → Result A × World
  ask f w = (f w.asked, record w { asked = w.asked + 1 })

  unfoldable pub fetch_server : String → Exec World ServerInfo
  fetch_server id = ask (λ n. env.fetch_server n id)

  unfoldable pub fetch_channel : String → Exec World ChannelInfo
  fetch_channel id = ask (λ n. env.fetch_channel n id)

  unfoldable pub fetch_self : Exec World String
  fetch_self = ask env.fetch_self

  unfoldable pub fetch_member_roles : String → String → Exec World (List String)
  fetch_member_roles server user = ask (λ n. env.fetch_member_roles n server user)

  -- FetchSelfRoleIDs of read.go
  unfoldable pub fetch_self_role_ids : String → Exec World (List String)
  unfolding fetch_self fetch_member_roles
  fetch_self_role_ids server = do user ← fetch_self; fetch_member_roles server user

  unfoldable pub set_channel_permissions : String → String → ℕ → ℕ → Exec World String
  set_channel_permissions channel role allow deny =
      call
        (put_channel_permissions channel (if role == "" then default_role_id else role) allow deny)

  unfoldable pub set_role_permissions : String → String → ℕ → ℕ → Exec World String
  set_role_permissions server role allow deny = call (put_role_permissions server role allow deny)
