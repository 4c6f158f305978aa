-- ===== src/Store/References/Rows.antt =====
-- A row more or a row less, and the REFERENCES of message_map (internal/store/migrations).
use luars_stoatcord.Prelude.{
  String, ◌≡◌, refl, sym, ap, subst, true, false, Option, none, some, [], ◌∷◌, any, arith, eq_refl,
  eq_iff, ◌==◌, Bool-cases, inl, inr,
}
use mathlib.Core.Option.{some-injective}
use luars_stoatcord.Prelude.Maps.{Map, insert, lookup, lookup-insert}
use luars_stoatcord.World.{
  EntityType, server, category, channel, role, emoji, message, unknown, MessageRow, Row, Store,
}
use luars_stoatcord.Store.{in_channel, is_referenced, is_some, put_row, without}
use luars_stoatcord.Store.View.{lookup-without}

-- Every row of message_map names a channel that has a row.
abbrev pub Referential : Store → Type 0
Referential s =
    (k : String) (r : MessageRow)
    → lookup k s.messages ≡ some r
    → is_some (s.rows channel r.channel_id) ≡ true

-- A row that is written over another one, or newly, leaves no row away.
grown :
    (s : Store) (t : EntityType) (k : String) (o : Option Row) (c : String)
    → (is_some (s.rows t k) ≡ true → is_some o ≡ true)
    → is_some (s.rows channel c) ≡ true
    → is_some (put_row s.rows t k o channel c) ≡ true
grown s channel k o c g h = elim (Bool-cases (k == c)) [
  | inl e ↦ rw e (g (subst (λ i. is_some (s.rows channel i) ≡ true) (sym ((eq_iff k c).0 e)) h))
  | inr e ↦ rw e h
]
grown s server k o c g h = h
grown s category k o c g h = h
grown s role k o c g h = h
grown s emoji k o c g h = h
grown s message k o c g h = h
grown s (unknown x) k o c g h = h

pub grown-Referential :
    (s : Store) (t : EntityType) (k : String) (o : Option Row)
    → (is_some (s.rows t k) ≡ true → is_some o ≡ true)
    → Referential s
    → Referential (record s { rows = put_row s.rows t k o })
grown-Referential s t k o g h j r e = grown s t k o r.channel_id g (h j r e)

-- A message row that is written names a channel with a row.
pub inserted-Referential :
    (s : Store) (k : String) (r : MessageRow)
    → is_some (s.rows channel r.channel_id) ≡ true
    → Referential s
    → Referential (record s { messages = insert k r s.messages })
inserted-Referential s k r c h j x e = elim (Bool-cases (k == j)) [
  | inl same ↦
      subst (λ y. is_some (s.rows channel y.channel_id) ≡ true)
        (some-injective _ _ (rw (lookup-insert k j r s.messages, same) at e)) c
  | inr other ↦ h j x (rw (lookup-insert k j r s.messages, other) at e)
]

pub without-Referential :
    (s : Store) (k : String)
    → Referential s
    → Referential (record s { messages = without k s.messages })
without-Referential s k h j x e = elim (Bool-cases (k == j)) [
  | inl same ↦ absurd (ground (arith, lookup-without k j s.messages, same, e))
  | inr other ↦ h j x (rw (lookup-without k j s.messages, other) at e)
]

any-lookup :
    (k c : String) (r : MessageRow) (m : Map MessageRow)
    → lookup k m ≡ some r
    → (r.channel_id == c) ≡ true
    → any (in_channel c) m ≡ true
unfolding lookup
any-lookup k c r [] e h = absurd (ground arith)
any-lookup k c r ((j, x) ∷ m) e h = elim (Bool-cases (j == k)) [
  | inl same ↦
      rw (ap (λ (y : MessageRow). y.channel_id) (some-injective x r (rw same at e)), h) refl
  | inr other ↦ ground (arith, any-lookup k c r m (rw other at e) h)
]

-- A channel row that no message names can go.
pub unnamed-Referential :
    (s : Store) (t : EntityType) (k : String)
    → is_referenced t k s ≡ false
    → Referential s
    → Referential (record s { rows = put_row s.rows t k none })
unfolding is_referenced
unnamed-Referential s channel k free h j r e = elim (Bool-cases (k == r.channel_id)) [
  | inl same ↦ absurd (
      ground (
        arith,
        h j r e,
        free,
        any-lookup j k r s.messages e (ground (arith, eq_iff k r.channel_id, eq_refl k, same)),
        (eq_iff k r.channel_id).0 same,
      ))
  | inr other ↦ rw other (h j r e)
]
unnamed-Referential s t k free h j r e = ground (arith, h j r e)
