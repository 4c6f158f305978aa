-- ===== src/Canonical/Permission.antt =====
-- internal/canonical/permission.go. The dropped permissions, which the code logs, are returned
-- beside the mask.
use luars_stoatcord.Prelude.{
  ℕ, ◌^◌, ◌≡◌, refl, arith, Bool, true, false, Option, none, some, List, [], ◌∷◌, ◌++◌, bit_or,
  select, sym, ◌∙◌, if◌then◌else◌,
}
use Prim.Native.Nat.{max}
use luars_stoatcord.Prelude.Bits.{digit, digit-bit_or, digit-zero}
use mathlib.Core.List.{append_assoc, append-nil}
use luars_stoatcord.Canonical.Types.{
  Permission, view_channel, read_history, send_messages, manage_messages, embed_links, attach_files,
  add_reactions, manage_channel, manage_server, manage_roles, create_invite, connect, speak, video,
  mute_members, deafen_members, move_members, manage_webhooks, manage_emoji, manage_nicks,
  kick_members, ban_members, timeout_members, mention_everyone, Overwrite, StoatOverwrite,
}

-- stoatBits[p]
unfoldable pub stoat_bits : Permission → Option ℕ
stoat_bits manage_channel = some (2 ^ 0)
stoat_bits manage_server = some (2 ^ 1)
stoat_bits manage_roles = some (2 ^ 2)
stoat_bits manage_emoji = some (2 ^ 4)
stoat_bits kick_members = some (2 ^ 6)
stoat_bits ban_members = some (2 ^ 7)
stoat_bits timeout_members = some (2 ^ 8)
stoat_bits manage_nicks = some (2 ^ 11)
stoat_bits view_channel = some (2 ^ 20)
stoat_bits read_history = some (2 ^ 21)
stoat_bits send_messages = some (2 ^ 22)
stoat_bits manage_messages = some (2 ^ 23)
stoat_bits manage_webhooks = some (2 ^ 24)
stoat_bits create_invite = some (2 ^ 25)
stoat_bits embed_links = some (2 ^ 26)
stoat_bits attach_files = some (2 ^ 27)
stoat_bits add_reactions = some (2 ^ 29)
stoat_bits connect = some (2 ^ 30)
stoat_bits speak = some (2 ^ 31)
stoat_bits video = some (2 ^ 32)
stoat_bits mute_members = some (2 ^ 33)
stoat_bits deafen_members = some (2 ^ 34)
stoat_bits move_members = some (2 ^ 35)
stoat_bits mention_everyone = some (2 ^ 37)
stoat_bits _ = none

abbrev add_permission : Option ℕ → Permission → ℕ × List Permission → ℕ × List Permission
add_permission none p (bits, dropped) = (bits, dropped ++ (p ∷ []))
add_permission (some bit) p (bits, dropped) = (bit_or bits bit, dropped)

-- The loop of StoatBits: the mask so far, and what was dropped.
unfoldable pub aggregate : List Permission → ℕ × List Permission → ℕ × List Permission
aggregate [] acc = acc
aggregate (p ∷ ps) acc = aggregate ps (add_permission (stoat_bits p) p acc)

-- StoatBits
abbrev pub mask : List Permission → ℕ
mask ps = (aggregate ps (0, [])).0

abbrev pub dropped : List Permission → List Permission
dropped ps = (aggregate ps (0, [])).1

abbrev pub no_bit : Option ℕ → Bool
no_bit none = true
no_bit (some bit) = false

-- A permission with no bit in Stoat.
abbrev pub is_unmapped : Permission → Bool
is_unmapped p = no_bit (stoat_bits p)

abbrev pub bit_digit : ℕ → Option ℕ → ℕ
bit_digit k none = 0
bit_digit k (some bit) = digit k bit

-- The digit `k` of the bits that the permissions have: 1 if any of them has it.
abbrev pub granted : ℕ → List Permission → ℕ
granted k [] = 0
granted k (p ∷ ps) = max (bit_digit k (stoat_bits p)) (granted k ps)

digit-add_permission :
    (k : ℕ) (o : Option ℕ) (p : Permission) (acc : ℕ × List Permission)
    → digit k (add_permission o p acc).0 ≡ max (digit k acc.0) (bit_digit k o)
digit-add_permission k none p acc = omega arith
digit-add_permission k (some bit) p acc = digit-bit_or k acc.0 bit

digit-aggregate :
    (k : ℕ) (ps : List Permission) (acc : ℕ × List Permission)
    → digit k (aggregate ps acc).0 ≡ max (digit k acc.0) (granted k ps)
unfolding aggregate
digit-aggregate k [] acc = omega arith
digit-aggregate k (p ∷ ps) acc = omega (
  arith,
  digit-aggregate k ps (add_permission (stoat_bits p) p acc),
  digit-add_permission k (stoat_bits p) p acc,
)

dropped-add_permission :
    (o : Option ℕ) (p : Permission) (acc : ℕ × List Permission) (rest : List Permission)
    → (add_permission o p acc).1 ++ rest ≡ acc.1 ++ (if no_bit o then p ∷ rest else rest)
dropped-add_permission none p acc rest = append_assoc acc.1 (p ∷ []) rest
dropped-add_permission (some bit) p acc rest = refl

dropped-aggregate :
    (ps : List Permission) (acc : ℕ × List Permission)
    → (aggregate ps acc).1 ≡ acc.1 ++ select is_unmapped ps
unfolding aggregate
dropped-aggregate [] acc = sym (append-nil acc.1)
dropped-aggregate (p ∷ ps) acc =
    dropped-aggregate ps (add_permission (stoat_bits p) p acc)
    ∙ dropped-add_permission (stoat_bits p) p acc (select is_unmapped ps)

-- Digit k of the mask is 1 if the bit of one of the permissions has it, else 0, and the
-- permissions that are dropped are the ones without a bit, in order.
pub mask_lem :
    (k : ℕ) (ps : List Permission)
    → (digit k (mask ps) ≡ granted k ps) × (dropped ps ≡ select is_unmapped ps)
mask_lem k ps =
    (omega (arith, digit-aggregate k ps (0, []), digit-zero k), dropped-aggregate ps (0, []))

-- Overwrite.ToStoat
unfoldable pub to_stoat : Overwrite → StoatOverwrite
to_stoat o = record { allow = mask o.allow; deny = mask o.deny }
