-- ===== src/Stoat/Channel.antt =====
-- internal/stoat/channel.go. A map of overwrites is applied in the order of its entries.
use luars_stoatcord.Prelude.{
  String, Bool, true, false, Option, none, some, List, [], ◌∷◌, ◌==◌, if◌then◌else◌,
}
use luars_stoatcord.Prelude.Maps.{Map}
use luars_stoatcord.Canonical.Result.{failed}
use luars_stoatcord.Canonical.Types.{StoatChannel, StoatOverwrite}
use luars_stoatcord.World.{
  Env, World, create_text_channel, create_voice_channel, edit_channel, delete_channel,
}
use luars_stoatcord.World.Exec.{Exec, raise, pure, ◌>>=◌, ◌>>◌}
use luars_stoatcord.Stoat.Client.{
  Client, ElevationRole, elevation_permissions, call, set_channel_permissions,
}

-- Admin roles are to be granted, and nothing is known to grant them.
abbrev pub cannot_grant : List String → Option ElevationRole → Bool
cannot_grant [] e = false
cannot_grant (_ ∷ _) none = true
cannot_grant (_ ∷ _) (some _) = false

module _ (env : Env) (c : Client) where
  unfoldable pub grant_admins : String → List String → Exec World (Unit {0})
  grant_admins channel [] = pure tt
  grant_admins channel (role ∷ roles) = do
    set_channel_permissions env channel role (elevation_permissions c) 0
    grant_admins channel roles

  unfoldable pub put_overwrites : String → Map StoatOverwrite → Exec World (Unit {0})
  put_overwrites channel [] = pure tt
  put_overwrites channel ((role, ow) ∷ rest) = do
    set_channel_permissions env channel role ow.allow ow.deny
    put_overwrites channel rest

  -- applyChannelOverwrites
  unfoldable pub apply_channel_overwrites : String → Map StoatOverwrite → Exec World (Unit {0})
  apply_channel_overwrites channel overwrites =
      if cannot_grant c.admin_roles c.elevation
      then raise (failed "stoat: elevation role not resolved")
      else do grant_admins channel c.admin_roles; put_overwrites channel overwrites

  -- Client.CreateChannel
  unfoldable pub create : String → StoatChannel → Exec World String
  create server ch = do
    id ← call env (
        if ch.kind == "Voice"
        then create_voice_channel server ch.name
        else create_text_channel server ch.name)
    apply_channel_overwrites id ch.overwrites
    pure id

  -- Client.EditChannel
  unfoldable pub edit : String → StoatChannel → Exec World (Unit {0})
  edit id ch = do call env (edit_channel id ch.name); apply_channel_overwrites id ch.overwrites

  -- Client.DeleteChannel
  unfoldable pub delete : String → Exec World String
  delete id = call env (delete_channel id)
