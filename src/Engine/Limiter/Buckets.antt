-- ===== src/Engine/Limiter/Buckets.antt =====
-- The sub-limiters of BucketedRateLimiter (internal/engine/rate_limiter.go), one key at a time.
use luars_stoatcord.Prelude.{
  ℕ, String, ◌≡◌, refl, ap, ◌∙◌, Bool, true, false, ◌==◌, eq_iff, List, [], ◌∷◌, Bool-cases, inl,
  inr, if◌then◌else◌,
}
use luars_stoatcord.Prelude.Maps.{lookup-insert}
use luars_stoatcord.Engine.Limiter.{
  Limiter, Call, turn, back_off, try_wait, backoff, grants, granted, Bucketed, sub_limiter,
  store_limiter, bucket_turn, bucket_backoff, bucket_grants, granted_key,
}

-- The calls of one key, and the times of one key.
abbrev pub of_key {ℓ} : {A : Type ℓ} → String → List (String × A) → List A
of_key k [] = []
of_key k ((j, a) ∷ xs) = if j == k then a ∷ of_key k xs else of_key k xs

sub_limiter-store_limiter :
    (k j : String) (l : Limiter) (b : Bucketed)
    → sub_limiter k (store_limiter j l b) ≡ (if j == k then l else sub_limiter k b)
unfolding sub_limiter
sub_limiter-store_limiter k j l b = elim (Bool-cases (j == k)) [
  | inl e ↦ rw (lookup-insert j k l b.limiters, e) refl
  | inr e ↦ rw (lookup-insert j k l b.limiters, e) refl
]

of_key-granted_same :
    (k j : String) (p : Bool × Bucketed) (now : ℕ) (gs : List (String × ℕ))
    → (j == k) ≡ true
    → of_key k (granted_key p j now gs) ≡ granted (p.0, sub_limiter k p.1) now (of_key k gs)
of_key-granted_same k j (true, b) now gs e = rw e refl
of_key-granted_same k j (false, b) now gs e = refl

of_key-granted_other :
    (k j : String) (p : Bool × Bucketed) (now : ℕ) (gs : List (String × ℕ))
    → (j == k) ≡ false
    → of_key k (granted_key p j now gs) ≡ of_key k gs
of_key-granted_other k j (true, b) now gs e = rw e refl
of_key-granted_other k j (false, b) now gs e = refl

-- The calls of a key go on exactly when they would on a limiter of their own, whatever the calls
-- of the other keys are.
pub of_key-bucket_grants :
    (k : String) (cs : List (String × Call)) (b : Bucketed)
    → of_key k (bucket_grants cs b) ≡ grants (of_key k cs) (sub_limiter k b)
unfolding bucket_grants grants bucket_turn bucket_backoff
of_key-bucket_grants k [] b = refl
of_key-bucket_grants k ((j, turn now) ∷ cs) b = elim (Bool-cases (j == k)) [
  | inl e ↦
      let same = ap (λ x. sub_limiter x b) ((eq_iff j k).0 e) in
      of_key-granted_same k j (bucket_turn j now b) now _ e
      ∙ rw
          (
            of_key-bucket_grants k cs (bucket_turn j now b).1,
            sub_limiter-store_limiter k j (try_wait now (sub_limiter j b)).1 b,
            e,
            same,
          )
          refl
  | inr e ↦
      of_key-granted_other k j (bucket_turn j now b) now _ e
      ∙ rw
          (
            of_key-bucket_grants k cs (bucket_turn j now b).1,
            sub_limiter-store_limiter k j (try_wait now (sub_limiter j b)).1 b,
            e,
          )
          refl
]
of_key-bucket_grants k ((j, back_off now d) ∷ cs) b = elim (Bool-cases (j == k)) [
  | inl e ↦
      let same = ap (λ x. sub_limiter x b) ((eq_iff j k).0 e) in
      rw
        (
          of_key-bucket_grants k cs (bucket_backoff j now d b),
          sub_limiter-store_limiter k j (backoff now d (sub_limiter j b)) b,
          e,
          same,
        )
        refl
  | inr e ↦
      rw
        (
          of_key-bucket_grants k cs (bucket_backoff j now d b),
          sub_limiter-store_limiter k j (backoff now d (sub_limiter j b)) b,
          e,
        )
        refl
]
