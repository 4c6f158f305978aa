-- ===== src/Discord/Gif.antt =====
-- internal/discord/gif.go: the log of a GIF link that isGifLink did not find. The types of embeds that
-- show media are discordgo's constants, and gifHostPattern is a parameter.
use luars_stoatcord.Prelude.{String, Bool, false, ◌&&◌, ◌==◌, List, any, if◌then◌else◌}
use luars_stoatcord.Canonical.Result.{Result, ok, err}
use luars_stoatcord.Canonical.Types.{Message}
use luars_stoatcord.Canonical.State.{parse_message}
use luars_stoatcord.World.{Env, World, message}
use luars_stoatcord.World.Exec.{Exec, pure}
use luars_stoatcord.Store.{Mapping, get}

module _ (is_media : String → Bool) (find_gif : String → String) where
  abbrev is_missed : Result Message → Bool
  is_missed (ok stored) = find_gif stored.content == ""
  is_missed (err _) = false

  abbrev missed_by : Result Mapping → Bool
  missed_by (ok m) = m.found && is_missed (parse_message m.canonical_state)
  missed_by (err _) = false

  abbrev look_up : Env → String → Exec World Bool
  look_up env id w = let (r, w') = get env message id w in (ok (missed_by r), w')

  -- logGifDetectionMismatch, of the types of the embeds: whether it warns
  unfoldable pub log_gif_detection_mismatch : Env → List String → String → Exec World Bool
  log_gif_detection_mismatch env types id =
      if any is_media types then look_up env id else pure false
