-- ===== src/Discord/Handlers/Sparing.antt =====
-- The ops that internal/discord builds and the bot's own elevation role.
use luars_stoatcord.Prelude.{String, Bool, ◌≡◌, some, All}
use luars_stoatcord.World.{
  Env, World, Request, requested, create_role, edit_role, delete_role, put_channel_permissions,
  put_role_permissions, create_text_channel, create_voice_channel, edit_channel, delete_channel,
  edit_server, set_categories, send_message, edit_message, delete_message, upload, edit_member,
}
use luars_stoatcord.World.Exec.{Preserves}
use luars_stoatcord.Store.Quiet.{trace-get}
use luars_stoatcord.Engine.Op.{Op}
use luars_stoatcord.Engine.Asking.{process-Told}
use luars_stoatcord.Engine.Process.{process}
use luars_stoatcord.Stoat.Client.{Client, ElevationRole}
use luars_stoatcord.Stoat.Guard.{Spares, call-AllSpared, edit-AllSpared, delete-AllSpared}
use luars_stoatcord.Discord.Keeping.{IsPlain, Kept}
use luars_stoatcord.Discord.Handlers.{Setup}
use luars_stoatcord.Discord.Handlers.Built.{Built}
use luars_stoatcord.Discord.Handlers.Keeping.{ops-Applies}

-- No request so far touches the role of this id or gives a role a rank below 1.
abbrev pub SparedSoFar : String → World → Type 0
SparedSoFar protected w = All (Spares protected) w.trace

abbrev pub ApplySpares : String → Op → Type 0
ApplySpares protected op = Preserves (SparedSoFar protected) op.apply

plain-Spares : (protected : String) (r : Request) → IsPlain r → Spares protected (requested r)
plain-Spares protected (create_role _ _) h = tt
plain-Spares protected (edit_role _ _ _ _ _) h = absurd h
plain-Spares protected (delete_role _ _) h = absurd h
plain-Spares protected (put_role_permissions _ _ _ _) h = absurd h
plain-Spares protected (put_channel_permissions _ _ _ _) h = tt
plain-Spares protected (create_text_channel _ _) h = tt
plain-Spares protected (create_voice_channel _ _) h = tt
plain-Spares protected (edit_channel _ _) h = tt
plain-Spares protected (delete_channel _) h = tt
plain-Spares protected (edit_server _ _ _) h = tt
plain-Spares protected (set_categories _ _) h = tt
plain-Spares protected (send_message _ _) h = tt
plain-Spares protected (edit_message _ _ _) h = tt
plain-Spares protected (delete_message _ _) h = tt
plain-Spares protected (upload _ _) h = tt
plain-Spares protected (edit_member _ _ _) h = tt

module _ (env : Env) (c : Client) (e : ElevationRole) (resolved : c.elevation ≡ some e) where
  spared_kept : Kept env c (λ w w'. SparedSoFar e.id w → SparedSoFar e.id w')
  spared_kept = record {
    same = λ w h. h;
    next = λ u v w f g h. g (f h);
    gets = λ t k w h. rw (trace-get env w t k) h;
    calls = λ r plain. call-AllSpared env e.id r (plain-Spares e.id r plain);
    edits = edit-AllSpared env c e resolved;
    deletes = delete-AllSpared env c e resolved;
  }

module _ (x : Setup) (e : ElevationRole) (resolved : x.client.elevation ≡ some e) where
  pub ops-ApplySpares : Built x (ApplySpares e.id)
  ops-ApplySpares = ops-Applies x (spared_kept x.env x.client e resolved)

pub process-Spared :
    (env : Env) (protected : String) (dry_run : Bool) (op : Op)
    → ApplySpares protected op
    → Preserves (SparedSoFar protected) (process env dry_run op)
process-Spared env protected dry_run op h =
    process-Told env op (All (Spares protected)) (λ k es g. (tt, g)) (λ k n es g. (tt, g)) h dry_run
