-- ===== src/Canonical/State/RoundTrip.antt =====
-- What the Parse functions of internal/canonical make of what the CanonicalJSON methods write.
use luars_stoatcord.Prelude.{
  String, ◌≡◌, refl, sym, ap, ap₂, false, inl, inr, List, [], ◌∷◌, map, ◌==◌, eq_iff, any, All,
  arith, Bool-cases,
}
use luars_stoatcord.Canonical.Result.{ok}
use luars_stoatcord.Canonical.Json.{arr, as_strings, strings}
use luars_stoatcord.Canonical.Types.{Permission, unrecognized, Overwrite, Category, Role, Message}
use luars_stoatcord.Canonical.State.{
  overwrite_json, parse_overwrite, role_json, parse_role, category_json, parse_category,
  message_json, parse_message,
}
use luars_stoatcord.Canonical.Vocabulary.{
  permission_text, constants, permission_among, parse_permission, text_leb, place,
  sorted_permissions, canonicalize,
}

-- No text of a constant stands for an unrecognized permission.
abbrev pub IsPermission : Permission → Type 0
IsPermission (unrecognized s) = any (λ q. permission_text q == s) constants ≡ false
IsPermission p = Unit

abbrev pub AreWellFormed : Overwrite → Type 0
AreWellFormed o = All IsPermission o.allow × All IsPermission o.deny

as_strings-strings : (ss : List String) → as_strings (arr (strings ss)) ≡ ok ss
as_strings-strings [] = refl
as_strings-strings (s ∷ ss) = rw (as_strings-strings ss) refl

permission_among-unknown :
    (s : String) (ps : List Permission)
    → any (λ q. permission_text q == s) ps ≡ false
    → permission_among s ps ≡ unrecognized s
unfolding permission_among
permission_among-unknown s [] h = refl
permission_among-unknown s (p ∷ ps) h = ground (arith, permission_among-unknown s ps)

parse_permission-text : (p : Permission) → IsPermission p → parse_permission (permission_text p) ≡ p
unfolding permission_among permission_text
parse_permission-text (unrecognized s) h = permission_among-unknown s constants h
parse_permission-text p h = refl

parse_permission-texts :
    (ps : List Permission)
    → All IsPermission ps
    → map parse_permission (map permission_text ps) ≡ ps
parse_permission-texts [] h = refl
parse_permission-texts (p ∷ ps) (h, hs) =
    ap₂ (λ x xs. x ∷ xs) (parse_permission-text p h) (parse_permission-texts ps hs)

place-All :
    (p : Permission) (ps : List Permission)
    → IsPermission p
    → All IsPermission ps
    → All IsPermission (place p ps)
unfolding place
place-All p [] h hs = (h, tt)
place-All p (q ∷ ps) h (g, gs) =
    elim (Bool-cases (text_leb (permission_text p) (permission_text q))) [
      | inl e ↦ rw e (h, (g, gs))
      | inr e ↦ rw e (g, place-All p ps h gs)
    ]

sorted_permissions-All :
    (ps : List Permission) → All IsPermission ps → All IsPermission (sorted_permissions ps)
unfolding sorted_permissions
sorted_permissions-All [] h = tt
sorted_permissions-All (p ∷ ps) (h, hs) =
    place-All p (sorted_permissions ps) h (sorted_permissions-All ps hs)

parse_overwrite-json : (o : Overwrite) → AreWellFormed o → parse_overwrite (overwrite_json o) ≡ ok o
parse_overwrite-json o (h, g) =
    rw
      (
        as_strings-strings (map permission_text o.allow),
        as_strings-strings (map permission_text o.deny),
        parse_permission-texts o.allow h,
        parse_permission-texts o.deny g,
      )
      refl

-- A stored role is read back with its permission lists sorted, provided that no unrecognized
-- permission has the text of a known one.
pub parse_role-role_json :
    (r : Role)
    → AreWellFormed r.permissions
    → parse_role (role_json r) ≡ ok (record r { permissions = canonicalize r.permissions })
unfolding parse_role role_json canonicalize
parse_role-role_json r (h, g) =
    rw
      (parse_overwrite-json (canonicalize r.permissions) (
        unfold canonicalize in
        (
          sorted_permissions-All r.permissions.allow h,
          sorted_permissions-All r.permissions.deny g,
        )))
      refl

-- A stored category is read back as it was.
pub parse_category-category_json : (c : Category) → parse_category (category_json c) ≡ ok c
unfolding parse_category category_json
parse_category-category_json c = rw (as_strings-strings c.channel_ids) refl

-- A stored message is read back as it was.
pub parse_message-message_json : (m : Message) → parse_message (message_json m) ≡ ok m
unfolding parse_message message_json
parse_message-message_json m = elim (Bool-cases (m.reply_to_id == "")) [
  | inl e ↦
      rw (e, as_strings-strings m.attachment_refs)
        (ap (λ x. ok (record m { reply_to_id = x })) (sym ((eq_iff m.reply_to_id "").0 e)))
  | inr e ↦ rw (e, as_strings-strings m.attachment_refs) refl
]

-- A stored role is read back with its permission lists sorted, provided that no unrecognized
-- permission has the text of a known one; a stored category and a stored message are read back as
-- they were.
pub parse-json :
    (r : Role) (c : Category) (m : Message)
    → AreWellFormed r.permissions
    → (parse_role (role_json r) ≡ ok (record r { permissions = canonicalize r.permissions }))
      × (parse_category (category_json c) ≡ ok c)
      × (parse_message (message_json m) ≡ ok m)
parse-json r c m h =
    (parse_role-role_json r h, parse_category-category_json c, parse_message-message_json m)
