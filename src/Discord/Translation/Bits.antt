-- ===== src/Discord/Translation/Bits.antt =====
-- From a mask of Discord's permission bits to one of Stoat's: PermissionsFromBits of
-- internal/discord/permission.go, and then StoatBits of internal/canonical/permission.go.
use Prim.Native.Nat.{max}
use native.Mathlib.Decide.{ℕ_discrete}
use luars_stoatcord.Prelude.{
  ℕ, zero, suc, ◌+◌, ◌/◌, ◌^◌, ◌≤◌, ◌<◌, ◌≡◌, ◌⊎◌, ◌↔◌, refl, inl, inr, Option, none, some, List,
  [], ◌∷◌, nat_eq, if◌then◌else◌, arith,
}
use luars_stoatcord.Prelude.Bits.{digit}
use luars_stoatcord.Canonical.Types.{Permission}
use luars_stoatcord.Canonical.Permission.{mask, mask_lem, granted, bit_digit, stoat_bits}
use luars_stoatcord.Discord.Translation.{
  Constants, lookup_number, prepend, bits_to_canonical, permissions_from, permissions_from_bits,
}

digit-le : (k m : ℕ) → digit k m ≤ 1
unfolding digit
digit-le zero m = omega arith
digit-le (suc k) m = digit-le k (m / 2)

bit_digit-le : (j : ℕ) (o : Option ℕ) → bit_digit j o ≤ 1
bit_digit-le j none = omega arith
bit_digit-le j (some bit) = digit-le j bit

granted-le : (j : ℕ) (ps : List Permission) → granted j ps ≤ 1
granted-le j [] = omega arith
granted-le j (p ∷ ps) = omega (arith, bit_digit-le j (stoat_bits p), granted-le j ps)

max_one : (a b : ℕ) → max a b ≡ 1 → (a ≡ 1) ⊎ (b ≡ 1)
max_one a b h = elim (ℕ_discrete a 1) [ yes e ↦ inl e | no e ↦ inr (omega arith) ]

module _ (c : Constants) (bits j : ℕ) where
  -- Discord's bit `k` is set, and the permission that it stands for has Stoat's bit `j`.
  abbrev pub Carries : ℕ → Type 0
  Carries k =
      (digit k bits ≡ 1)
      × ((p : Permission) × (lookup_number (2 ^ k) (bits_to_canonical c) ≡ some p)
          × (bit_digit j (stoat_bits p) ≡ 1))

  abbrev one_bit : ℕ → Option Permission → List Permission → List Permission
  one_bit d o rest = if nat_eq d 0 then rest else prepend o rest

  one_bit-granted :
      (d : ℕ) (o : Option Permission) (rest : List Permission)
      → d ≤ 1
      → granted j (one_bit d o rest) ≡ 1
      → ((d ≡ 1) × ((p : Permission) × (o ≡ some p) × (bit_digit j (stoat_bits p) ≡ 1)))
        ⊎ (granted j rest ≡ 1)
  one_bit-granted zero o rest s h = inr h
  one_bit-granted (suc zero) none rest s h = inr h
  one_bit-granted (suc zero) (some p) rest s h = elim (max_one _ _ h) [
    | inl e ↦ inl (refl, (p, refl, e))
    | inr e ↦ inr e
  ]
  one_bit-granted (suc (suc d)) o rest s h = absurd (omega arith)

  granted-one_bit :
      (d : ℕ) (o : Option Permission) (rest : List Permission)
      → granted j rest ≤ granted j (one_bit d o rest)
  granted-one_bit d none rest = ground arith
  granted-one_bit d (some p) rest = ground arith

  carried :
      (left pos : ℕ)
      → granted j (permissions_from c left pos bits) ≡ 1
      → (k : ℕ) × (k < pos + left) × Carries k
  unfolding permissions_from
  carried zero pos h = ground arith
  carried (suc left) pos h =
      elim (one_bit-granted (digit pos bits) (lookup_number (2 ^ pos) (bits_to_canonical c)) _
        (digit-le pos bits) h) [
          | inl here ↦ (pos, omega arith, here)
          | inr later ↦
              let (k, small, found) = carried left (suc pos) later in (k, omega arith, found)
        ]

  found_bit :
      (d : ℕ) (o : Option Permission) (p : Permission) (rest : List Permission)
      → d ≡ 1
      → o ≡ some p
      → bit_digit j (stoat_bits p) ≡ 1
      → 1 ≤ granted j (one_bit d o rest)
  found_bit d o p rest e f g = rw (e, f) (omega (arith, g))

  carries :
      (left pos k : ℕ)
      → pos ≤ k
      → k < pos + left
      → Carries k
      → 1 ≤ granted j (permissions_from c left pos bits)
  unfolding permissions_from
  carries zero pos k low high found = absurd (omega arith)
  carries (suc left) pos k low high (set, (p, known, stoat)) = elim (ℕ_discrete k pos) [
    | yes e ↦ found_bit (digit pos bits) _ p _ (rw e at set) (rw e at known) stoat
    | no e ↦ omega (
      arith,
      granted-one_bit (digit pos bits) (lookup_number (2 ^ pos) (bits_to_canonical c))
          (permissions_from c left (suc pos) bits),
      carries left (suc pos) k (omega arith) (omega arith) (set, (p, known, stoat)),
    )
  ]

  -- Stoat's bit `j` is set for a Discord mask exactly when one of the 64 bits of the mask is set
  -- that stands for a permission with that bit on Stoat.
  pub mask-permissions_from_bits :
      (digit j (mask (permissions_from_bits c bits)) ≡ 1) ↔ ((k : ℕ) × (k < 64) × Carries k)
  unfolding permissions_from_bits
  mask-permissions_from_bits = (
    λ h. carried 64 0 (rw (← (mask_lem j (permissions_from_bits c bits)).0) h),
    λ (k, small, found). omega (
      arith,
      (mask_lem j (permissions_from c 64 0 bits)).0,
      granted-le j (permissions_from c 64 0 bits),
      carries 64 0 k (omega arith) small found,
    ),
  )
