-- ===== src/Discord/Resending.antt =====
-- What resendCategories (internal/discord/category_gateway.go) sends.
use luars_stoatcord.Prelude.{
  ℕ, ◌+◌, String, ◌≡◌, refl, false, Bool, true, List, [], ◌∷◌, ◌++◌, map, arith,
}
use luars_stoatcord.Prelude.Int.{pos}
use luars_stoatcord.Canonical.Json.{Json}
use luars_stoatcord.Canonical.Result.{ok}
use luars_stoatcord.Canonical.Types.{Category}
use luars_stoatcord.World.{
  MappingStatus, unset, pending, active, deleting, channel, Env, World, Store, requested,
  set_categories,
}
use luars_stoatcord.Store.{get}
use luars_stoatcord.Store.View.{view}
use luars_stoatcord.Stoat.Server.{put_categories}
use luars_stoatcord.Stoat.Client.{call}
use luars_stoatcord.Discord.Categories.{
  add_active, resolve_channel_ids, resolve_categories, resend_categories,
}

-- The Stoat id of a mapping that is found and active.
abbrev sent_id : Bool → MappingStatus → String → List String
sent_id true active id = id ∷ []
sent_id true _ id = []
sent_id false _ id = []

-- The Stoat ids of the channels that are mapped and active, in order.
abbrev pub active_ids : Store → List String → List String
active_ids s [] = []
active_ids s (id ∷ ids) =
    let m = view channel id s in sent_id m.found m.status m.stoat_id ++ active_ids s ids

-- The category with the Stoat ids of its active channels.
abbrev pub resolve : Store → Category → Category
resolve s c = record {
  id = c.id;
  name = c.name;
  channel_ids = active_ids s c.channel_ids;
  position = pos 0;
}

add_active_lem :
    (found : Bool) (stoat_id : String) (status : MappingStatus) (state : Json) (ids : List String)
    → add_active
        (record { found = found; stoat_id = stoat_id; status = status; canonical_state = state })
        ids
      ≡ sent_id found status stoat_id ++ ids
add_active_lem true id active state ids = refl
add_active_lem true id unset state ids = refl
add_active_lem true id pending state ids = refl
add_active_lem true id deleting state ids = refl
add_active_lem false id status state ids = refl

view_active_lem :
    (s : Store) (id : String) (ids : List String)
    → add_active (view channel id s) (active_ids s ids) ≡ active_ids s (id ∷ ids)
view_active_lem s id ids =
    let m = view channel id s in
    add_active_lem m.found m.stoat_id m.status m.canonical_state (active_ids s ids)

module _ (env : Env) (live : (n : ℕ) → env.db_fails n ≡ false) where
  get_live :
      (k : String) (w : World)
      → get env channel k w ≡ (ok (view channel k w.store), record w { asked = w.asked + 1 })
  unfolding get view
  get_live k w = ground (arith, live w.asked)

  resolve_channel_ids_lem :
      (ids : List String) (w : World)
      → (n : ℕ) × (resolve_channel_ids env ids w
          ≡ (ok (active_ids w.store ids), record w { asked = n }))
  unfolding resolve_channel_ids
  resolve_channel_ids_lem [] w = (w.asked, refl)
  resolve_channel_ids_lem (id ∷ ids) w =
      let (n, e) = resolve_channel_ids_lem ids (record w { asked = w.asked + 1 }) in
      (n, rw (get_live id w, e, view_active_lem w.store id ids) refl)

  resolve_categories_lem :
      (cs : List Category) (w : World)
      → (n : ℕ) × (resolve_categories env cs w
          ≡ (ok (map (resolve w.store) cs), record w { asked = n }))
  unfolding resolve_categories
  resolve_categories_lem [] w = (w.asked, refl)
  resolve_categories_lem (c ∷ cs) w =
      let (m, d) = resolve_channel_ids_lem c.channel_ids w in
      let (n, e) = resolve_categories_lem cs (record w { asked = m }) in (n, rw (d, e) refl)

  -- While the database answers, a resend is one request with every category of the snapshot in
  -- order, each with the Stoat ids of its active channels in order; no table changes.
  pub resend_categories_lem :
      (cs : List Category) (server : String) (w : World)
      → ((resend_categories env cs server w).1.trace
          ≡ requested (set_categories server (map (resolve w.store) cs)) ∷ w.trace)
        × ((resend_categories env cs server w).1.store ≡ w.store)
  unfolding resend_categories put_categories call
  resend_categories_lem cs server w =
      let (n, e) = resolve_categories_lem cs w in (rw e refl, rw e refl)
