-- ===== src/Discord/Handlers/Layers.antt =====
-- The ops of internal/discord/handlers.go in the layers of the engine's workers: what an op depends on is
-- processed by a worker of a lower layer.
use Prim.Native.String.{◌++◌ as concat, ◌∷◌ as cons, [] as empty}
use Prim.Native.Char.{code}
use text.Mathlib.TextLemmas.{cons-append}
use luars_stoatcord.Prelude.Maps.{Map}
use luars_stoatcord.Canonical.Types.{Overwrite}
use luars_stoatcord.World.{EntityType, entity_eq, role, channel}
use luars_stoatcord.Engine.Op.{DependencyKey, Op, worker_key}
use luars_stoatcord.Engine.Scheduling.{same_dependency, key_of}
use luars_stoatcord.Discord.Gateway.{role_dependencies}
use luars_stoatcord.Discord.Categories.{channel_dependencies}
use luars_stoatcord.Prelude.{
  nat_eq, ◌&&◌, ℕ, ◌≡◌, ◌<◌, ◌≤◌, refl, String, Bool, true, List, [], ◌∷◌, All, arith,
  if◌then◌else◌,
}

-- The letters of a text, as code points
abbrev letters : String → List ℕ
letters empty = []
letters (cons c s) = code c ∷ letters s

abbrev layer : List ℕ → ℕ
layer (c ∷ (d ∷ _)) = if nat_eq c b'r' then 0 else if nat_eq c b'c' && nat_eq d b'h' then 1 else 2
layer _ = 2

-- Roles, then channels, then categories and messages, by the first two letters of the worker's key.
abbrev pub key_height : String → ℕ
key_height k = layer (letters k)

pub key_height-bounded : (k : String) → key_height k ≤ 2
key_height-bounded k = layer_bounded (letters k)
  where
    layer_bounded : (cs : List ℕ) → layer cs ≤ 2
    layer_bounded [] = omega arith
    layer_bounded (c ∷ []) = omega arith
    layer_bounded (c ∷ (d ∷ _)) = ground arith

role-height : (s : String) → key_height (concat "role" s) ≡ 0
role-height s = rw (cons-append "r" "ole" s) (rw (cons-append "o" "le" s) refl)

pub channel-height : (s : String) → key_height (concat "channel" s) ≡ 1
channel-height s = rw (cons-append "c" "hannel" s) (rw (cons-append "h" "annel" s) refl)

pub category-height : (s : String) → key_height (concat "category" s) ≡ 2
category-height s = rw (cons-append "c" "ategory" s) (rw (cons-append "a" "tegory" s) refl)

pub message-height : (s : String) → key_height (concat "message" s) ≡ 2
message-height s = rw (cons-append "m" "essage" s) (rw (cons-append "e" "ssage" s) refl)

pub channel_messages-height : (s : String) → key_height (concat "message:" s) ≡ 2
channel_messages-height s = rw (cons-append "m" "essage:" s) (rw (cons-append "e" "ssage:" s) refl)

module _ (p : Op) where
  role_op-height :
      (e : EntityType) → p.entity ≡ e → entity_eq role e ≡ true → key_height (worker_key p) ≡ 0
  unfolding worker_key
  role_op-height role h q = rw h (role-height (concat ":" p.discord_id))
  role_op-height _ h q = absurd (ground arith)

  channel_op-height :
      (e : EntityType) → p.entity ≡ e → entity_eq channel e ≡ true → key_height (worker_key p) ≡ 1
  unfolding worker_key
  channel_op-height channel h q = rw h (channel-height (concat ":" p.discord_id))
  channel_op-height _ h q = absurd (ground arith)

first_true : (a b : Bool) → (a && b) ≡ true → a ≡ true
first_true a b h = ground arith

-- An op that lands with this dependency is processed in a lower layer than the worker of this key.
abbrev pub Below : String → DependencyKey → Type 0
Below k d =
    (p : Op) → same_dependency d (key_of p) ≡ true → key_height (worker_key p) < key_height k

pub roles-Below :
    (k : String) (m : Map Overwrite) → 0 < key_height k → All (Below k) (role_dependencies m)
roles-Below k [] h = tt
roles-Below k ((id, _) ∷ rest) h =
    (λ p e. rw (role_op-height p p.entity refl (first_true _ _ e)) h, roles-Below k rest h)

pub channel-Below :
    (k id : String) → 1 < key_height k → Below k (record { entity = channel; discord_id = id })
channel-Below k id h p e = rw (channel_op-height p p.entity refl (first_true _ _ e)) h

pub channels-Below :
    (k : String) (ids : List String) → 1 < key_height k → All (Below k) (channel_dependencies ids)
channels-Below k [] h = tt
channels-Below k (id ∷ ids) h = (channel-Below k id h, channels-Below k ids h)
