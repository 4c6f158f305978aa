-- ===== src/Examples/Storage.antt =====
-- Calls of the store on the small server.
use luars_stoatcord.Prelude.{List, [], ◌∷◌}
use luars_stoatcord.Canonical.Json.{raw}
use luars_stoatcord.World.{role, channel, message}
use luars_stoatcord.Canonical.Types.{Message}
use luars_stoatcord.Canonical.State.{message_json}
use luars_stoatcord.Store.Interface.{
  Call, calls_get, calls_write_pending, calls_confirm, calls_remove, calls_enqueue, serve_all,
  Session, contents,
}
use luars_stoatcord.Store.Refinement.{serve_all-Session}
use luars_stoatcord.Examples.{env, start}

abbrev greeting : Message
greeting = record {
  id = "m1";
  channel_id = "ch1";
  author_name = "ann";
  author_avatar_ref = "";
  author_colour = "";
  content = "hello";
  attachment_refs = [];
  reply_to_id = "";
}

-- The channel is not removed while its message is there.
abbrev calls : List Call
calls =
    calls_write_pending channel "ch1" (raw "{}")
    ∷ calls_write_pending message "m1" (message_json greeting)
    ∷ calls_remove channel "ch1"
    ∷ calls_write_pending role "r9" (raw "{}")
    ∷ calls_confirm role "r9" "01NINE"
    ∷ calls_get role "r9"
    ∷ calls_remove role "r1"
    ∷ calls_enqueue "role:0" (raw "{}")
    ∷ []

serve_all-Session_example :
    Session calls
      (contents start.store)
      (serve_all env calls start).0
      (contents (serve_all env calls start).1.store)
serve_all-Session_example = serve_all-Session env calls start
