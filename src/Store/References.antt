-- ===== src/Store/References.antt =====
-- The REFERENCES of message_map (internal/store/migrations) under the operations of internal/store.
pub mod Rows
use luars_stoatcord.Prelude.{
  ◌+◌, String, ◌≡◌, refl, sym, ap, subst, true, false, Option, none, some, List, [], ◌∷◌, any,
  arith, eq_refl, eq_iff, ◌==◌, Bool-cases, inl, inr,
}
use mathlib.Core.Option.{some-injective}
use luars_stoatcord.Prelude.Maps.{Map, insert, lookup, lookup-insert}
use luars_stoatcord.Canonical.Result.{Result-cases}
use luars_stoatcord.Canonical.Json.{Json, decode_channel_id}
use luars_stoatcord.World.{
  EntityType, server, category, channel, role, emoji, message, unknown, Env, World, MessageRow, Row,
  Store,
}
use luars_stoatcord.Store.{
  write_pending, confirm, remove, enqueue, in_channel, is_referenced, is_some,
  write_pending_message, insert_message, statement, put_row, upsert, set_active, set_message_id,
  confirm_message, remove_message, without, delete_row,
}
use luars_stoatcord.Store.View.{get-view, lookup-without}
use luars_stoatcord.Store.Interface.{
  Call, calls_get, calls_write_pending, calls_confirm, calls_remove, calls_enqueue, serve,
  serve_all,
}
use luars_stoatcord.Store.References.Rows.{
  Referential, grown-Referential, inserted-Referential, without-Referential, unnamed-Referential,
}

module _ (env : Env) (on : env.foreign_keys ≡ true) where
  abbrev Held : World → Type 0
  Held w = Referential w.store

  inserted_message-Held :
      (k c : String) (state : Json) (o : Option MessageRow) (w : World)
      → lookup k w.store.messages ≡ o
      → Held w
      → Held (insert_message env k c state o w).1
  unfolding insert_message
  inserted_message-Held k c state none w e h =
      elim (Bool-cases (is_some (w.store.rows channel c))) [
        | inl there ↦ rw (on, there) (inserted-Referential w.store k _ there h)
        | inr gone ↦ rw (on, gone) h
      ]
  inserted_message-Held k c state (some r) w e h =
      inserted-Referential w.store k (record r { canonical_state = state }) (h k r e) h

  pub write_pending-Held :
      (t : EntityType) (k : String) (state : Json) (w : World)
      → Held w
      → Held (write_pending env t k state w).1
  unfolding write_pending
  write_pending-Held message k state w h = elim (Result-cases (decode_channel_id state)) [
    | inr (x, e) ↦ rw (e, write_pending_message) h
    | inl (c, e) ↦ elim (Bool-cases (env.db_fails w.asked)) [
      | inl d ↦ rw (e, write_pending_message, d, statement) h
      | inr d ↦
          rw (e, write_pending_message, d, statement)
            (inserted_message-Held k c state (lookup k w.store.messages)
              (record w { asked = w.asked + 1 }) refl h)
    ]
  ]
  write_pending-Held (unknown x) k state w h = h
  write_pending-Held t k state w h = elim (Bool-cases (env.db_fails w.asked)) [
    | inl e ↦ rw (e, statement) h
    | inr e ↦
        rw (e, statement)
          (grown-Referential w.store t k (some (upsert state (w.store.rows t k))) (λ _. refl) h)
  ]

  set_active-kept :
      (stoat_id : String) (o : Option Row)
      → is_some o ≡ true
      → is_some (set_active stoat_id o) ≡ true
  set_active-kept stoat_id none e = e
  set_active-kept stoat_id (some r) e = refl

  confirmed_message-Held :
      (k stoat_id : String) (s : Store) (o : Option MessageRow)
      → lookup k s.messages ≡ o
      → Referential s
      → Referential (record s { messages = set_message_id k stoat_id o s.messages })
  confirmed_message-Held k stoat_id s none e h = h
  confirmed_message-Held k stoat_id s (some r) e h =
      inserted-Referential s k (record r { stoat_msg_id = some stoat_id }) (h k r e) h

  pub confirm-Held :
      (t : EntityType) (k stoat_id : String) (w : World)
      → Held w
      → Held (confirm env t k stoat_id w).1
  unfolding confirm
  confirm-Held message k stoat_id w h = elim (Bool-cases (env.db_fails w.asked)) [
    | inl d ↦ rw (confirm_message, d, statement) h
    | inr d ↦
        rw (confirm_message, d, statement) (confirmed_message-Held k stoat_id w.store _ refl h)
  ]
  confirm-Held (unknown x) k stoat_id w h = h
  confirm-Held t k stoat_id w h = elim (Bool-cases (env.db_fails w.asked)) [
    | inl e ↦ rw (e, statement) h
    | inr e ↦
        rw (e, statement)
          (grown-Referential w.store t k (set_active stoat_id (w.store.rows t k))
            (set_active-kept stoat_id (w.store.rows t k)) h)
  ]

  delete_row-Held :
      (t : EntityType) (k : String) (w : World) → Held w → Held (delete_row env t k w).1
  unfolding delete_row
  delete_row-Held t k w h = elim (Bool-cases (is_referenced t k w.store)) [
    | inl e ↦ rw (on, e) h
    | inr e ↦ rw (on, e) (unnamed-Referential w.store t k e h)
  ]

  pub remove-Held : (t : EntityType) (k : String) (w : World) → Held w → Held (remove env t k w).1
  unfolding remove
  remove-Held message k w h = elim (Bool-cases (env.db_fails w.asked)) [
    | inl d ↦ rw (remove_message, d, statement) h
    | inr d ↦ rw (remove_message, d, statement) (without-Referential w.store k h)
  ]
  remove-Held (unknown x) k w h = h
  remove-Held t k w h = elim (Bool-cases (env.db_fails w.asked)) [
    | inl e ↦ rw (e, statement) h
    | inr e ↦ rw (e, statement) (delete_row-Held t k (record w { asked = w.asked + 1 }) h)
  ]

  pub enqueue-Held :
      (op_type : String) (payload : Json) (w : World)
      → Held w
      → Held (enqueue env op_type payload w).1
  unfolding enqueue statement
  enqueue-Held op_type payload w h = elim (Bool-cases (env.db_fails w.asked)) [
    | inl e ↦ rw e h
    | inr e ↦ rw e h
  ]

  serve-Held : (c : Call) (w : World) → Held w → Held (serve env c w).1
  unfolding serve
  serve-Held (calls_get t k) w h = subst Referential (sym (get-view env w t k).0) h
  serve-Held (calls_write_pending t k state) w h = write_pending-Held t k state w h
  serve-Held (calls_confirm t k stoat_id) w h = confirm-Held t k stoat_id w h
  serve-Held (calls_remove t k) w h = remove-Held t k w h
  serve-Held (calls_enqueue op_type payload) w h = enqueue-Held op_type payload w h

  -- Whatever sequence of calls the store gets, failures of the driver included: if at the start every
  -- row of message_map names a channel that has a row, so it does at the end.
  serve_all-Referential :
      (cs : List Call) (w : World) → Referential w.store → Referential (serve_all env cs w).1.store
  unfolding serve_all
  serve_all-Referential [] w h = h
  serve_all-Referential (c ∷ cs) w h = serve_all-Referential cs (serve env c w).1 (serve-Held c w h)
