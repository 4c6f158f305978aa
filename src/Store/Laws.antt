-- ===== src/Store/Laws.antt =====
-- The store as a table from (entity type, Discord id) to Mapping: what Get reads, and what each
-- operation does to it.
use luars_stoatcord.Prelude.{
  ◌&&◌, ◌+◌, String, ◌≡◌, refl, sym, ap, ap₂, true, false, Option, none, some, arith, eq_iff,
  eq_refl, Bool-cases, inl, inr,
}
use luars_stoatcord.Prelude.Maps.{lookup}
use luars_stoatcord.Canonical.Result.{Result, ok, err, Error, Result-cases}
use luars_stoatcord.Canonical.Json.{Json, decode_channel_id}
use luars_stoatcord.World.{
  EntityType, server, message, unknown, entity_eq, Row, MessageRow, Store, Env, World,
}
use luars_stoatcord.Store.{
  Mapping, no_mapping, row_mapping, message_mapping, without, write_pending, confirm, remove,
  write_pending_message, confirm_message, remove_message, set_message_id, delete_row, is_referenced,
  statement, set_active,
}
use luars_stoatcord.Store.View.{
  view, same_key, active_status, mark_pending, mark_active, replaced, Outcome, lookup-without,
  is_message, row_mapping-upsert, put_row-replaced, insert_message-replaced, insert_message-Outcome,
}

-- WritePending keeps the Stoat id of its key, stores the new state and marks it pending, but leaves a
-- message that has a Stoat id active; other keys, and everything when it fails, stay as they were.
pub write_pending-Outcome :
    (env : Env) (w : World) (t : EntityType) (k : String) (state : Json)
    → Outcome
        (write_pending env t k state w)
        w.store
        (replaced t k (mark_pending t state (view t k w.store)) w.store)
unfolding write_pending view
write_pending-Outcome env w message k state = elim (Result-cases (decode_channel_id state)) [
  | inr (x, e) ↦ rw (e, write_pending_message) refl
  | inl (c, e) ↦ elim (Bool-cases (env.db_fails w.asked)) [
    | inl d ↦ rw (e, write_pending_message, d, statement) refl
    | inr d ↦
        rw (e, write_pending_message, d, statement)
          (insert_message-Outcome env k c state (lookup k w.store.messages)
            (record w { asked = w.asked + 1 }))
  ]
]
write_pending-Outcome env w (unknown x) k state = refl
write_pending-Outcome env w t k state = elim (Bool-cases (env.db_fails w.asked)) [
  | inl e ↦ rw (e, statement) refl
  | inr e ↦
      rw (e, statement)
        (put_row-replaced t k _ w.store _ refl (row_mapping-upsert t state (w.store.rows t k) refl))
]

row_mapping-set_active :
    (t : EntityType) (stoat_id : String) (r : Option Row)
    → is_message t ≡ false
    → row_mapping (set_active stoat_id r) ≡ mark_active t stoat_id (row_mapping r)
unfolding row_mapping
row_mapping-set_active t stoat_id none h = refl
row_mapping-set_active t stoat_id (some r) h = ground arith

entity_eq→eq : (t t' : EntityType) → entity_eq t t' ≡ true → t ≡ t'
entity_eq→eq server server h = refl
entity_eq→eq (unknown a) (unknown b) h = ap unknown ((eq_iff a b).0 h)
entity_eq→eq t t' h = ground arith

pub same_key→eq :
    (t : EntityType) (k : String) (t' : EntityType) (k' : String)
    → same_key t k t' k' ≡ true
    → (t ≡ t') × (k ≡ k')
same_key→eq t k t' k' h = ground (arith, entity_eq→eq t t', eq_iff k k')

view-same :
    (t : EntityType) (k : String) (s : Store) (t' : EntityType) (k' : String)
    → view t' k' s ≡ replaced t k (view t k s) s t' k'
view-same t k s t' k' = elim (Bool-cases (same_key t k t' k')) [
  | inl e ↦ let (p, q) = same_key→eq t k t' k' e in rw e (ap₂ (λ x y. view x y s) (sym p) (sym q))
  | inr e ↦ rw e refl
]

confirm_message-replaced :
    (k stoat_id : String) (s : Store) (o : Option MessageRow)
    → lookup k s.messages ≡ o
    → (t' : EntityType) (k' : String)
    → view t' k' (record s { messages = set_message_id k stoat_id o s.messages })
      ≡ replaced message k (mark_active message stoat_id (message_mapping o)) s t' k'
unfolding message_mapping
confirm_message-replaced k stoat_id s none e t' k' =
    rw (ap message_mapping (sym e)) (unfold view in view-same message k s t' k')
confirm_message-replaced k stoat_id s (some r) e t' k' =
    insert_message-replaced k (record r { stoat_msg_id = some stoat_id }) s
      (mark_active message stoat_id (message_mapping (some r))) (unfold message_mapping in refl) t'
      k'

-- Confirm records the Stoat id and marks the mapping active if there is one; other keys, a key
-- without a mapping, and everything when it fails, stay as they were.
pub confirm-Outcome :
    (env : Env) (w : World) (t : EntityType) (k stoat_id : String)
    → Outcome
        (confirm env t k stoat_id w)
        w.store
        (replaced t k (mark_active t stoat_id (view t k w.store)) w.store)
unfolding confirm view
confirm-Outcome env w message k stoat_id = elim (Bool-cases (env.db_fails w.asked)) [
  | inl d ↦ rw (confirm_message, d, statement) refl
  | inr d ↦ rw (confirm_message, d, statement) (confirm_message-replaced k stoat_id w.store _ refl)
]
confirm-Outcome env w (unknown x) k stoat_id = refl
confirm-Outcome env w t k stoat_id = elim (Bool-cases (env.db_fails w.asked)) [
  | inl e ↦ rw (e, statement) refl
  | inr e ↦
      rw (e, statement)
        (put_row-replaced t k _ w.store _ refl
          (row_mapping-set_active t stoat_id (w.store.rows t k) refl))
]

delete_row-Outcome :
    (env : Env) (t : EntityType) (k : String) (w : World)
    → is_message t ≡ false
    → Outcome (delete_row env t k w) w.store (replaced t k no_mapping w.store)
unfolding delete_row
delete_row-Outcome env t k w h = elim (Bool-cases (is_referenced t k w.store && env.foreign_keys)) [
  | inl e ↦ rw e refl
  | inr e ↦ rw e (put_row-replaced t k none w.store no_mapping h (unfold row_mapping in refl))
]

without-replaced :
    (k : String) (s : Store) (t' : EntityType) (k' : String)
    → view t' k' (record s { messages = without k s.messages })
      ≡ replaced message k no_mapping s t' k'
unfolding view message_mapping
without-replaced k s message k' = ground (arith, lookup-without k k' s.messages)
without-replaced k s t' k' = refl

-- Remove forgets the mapping of its key; other keys, and everything when it fails, stay.
pub remove-Outcome :
    (env : Env) (w : World) (t : EntityType) (k : String)
    → Outcome (remove env t k w) w.store (replaced t k no_mapping w.store)
unfolding remove
remove-Outcome env w message k = elim (Bool-cases (env.db_fails w.asked)) [
  | inl d ↦ rw (remove_message, d, statement) refl
  | inr d ↦ rw (remove_message, d, statement) (without-replaced k w.store)
]
remove-Outcome env w (unknown x) k = refl
remove-Outcome env w t k = elim (Bool-cases (env.db_fails w.asked)) [
  | inl e ↦ rw (e, statement) refl
  | inr e ↦ rw (e, statement) (delete_row-Outcome env t k (record w { asked = w.asked + 1 }) refl)
]

pub same_key_refl : (t : EntityType) (k : String) → same_key t k t k ≡ true
same_key_refl server k = eq_refl k
same_key_refl (unknown x) k = ground (arith, eq_refl x, eq_refl k)
same_key_refl t k = eq_refl k

pub Outcome-ok :
    (p : Result (Unit {0}) × World) (s : Store) (f : EntityType → String → Mapping) (x : Unit {0})
    → p.0 ≡ ok x
    → Outcome p s f
    → (t : EntityType) (k : String) → view t k p.1.store ≡ f t k
Outcome-ok (ok y, w) s f x e h = h
Outcome-ok (err y, w) s f x e h = cc

pub Outcome-err :
    (p : Result (Unit {0}) × World) (s : Store) (f : EntityType → String → Mapping) (x : Error)
    → p.0 ≡ err x
    → Outcome p s f
    → p.1.store ≡ s
Outcome-err (ok y, w) s f x e h = cc
Outcome-err (err y, w) s f x e h = h

-- The mapping that a write-pending and a confirm leave behind.
abbrev pub active_mapping : EntityType → Json → String → Mapping
active_mapping t state stoat_id = record {
  found = true;
  stoat_id = stoat_id;
  status = active_status t stoat_id;
  canonical_state = state;
}

-- The views of a store after the mapping of one key was replaced.
abbrev pub Replaced : EntityType → String → Mapping → Store → Store → Type 0
Replaced t k m before after =
    (t' : EntityType) (k' : String) → view t' k' after ≡ replaced t k m before t' k'

-- The intent written over `s` in `s1`, and then confirmed in `s2`.
pub active-after-pending :
    (t : EntityType) (k : String) (state : Json) (stoat_id : String) (s s1 s2 : Store)
    → Replaced t k (mark_pending t state (view t k s)) s s1
    → Replaced t k (mark_active t stoat_id (view t k s1)) s1 s2
    → Replaced t k (active_mapping t state stoat_id) s s2
active-after-pending t k state stoat_id s s1 s2 h1 h2 t' k' =
    ground (arith, h1 t k, h1 t' k', h2 t' k', same_key_refl t k)
