-- ===== src/World/Exec.antt =====
-- Actions on a state that may fail. What was written before an error stays written.
use luars_stoatcord.Prelude.{◌≡◌, refl}
use luars_stoatcord.Canonical.Result.{Result, ok, err, Error}

abbrev pub Exec {ℓ} : Type ℓ → Type ℓ → Type ℓ
Exec S A = S → Result A × S

module _ {ℓ} {S A : Type ℓ} where
  abbrev pub pure : A → Exec S A
  pure a s = (ok a, s)

  abbrev pub raise : Error → Exec S A
  raise e s = (err e, s)

  abbrev pub lift : Result A → Exec S A
  lift r s = (r, s)

  abbrev pub gets : (S → A) → Exec S A
  gets f s = (ok (f s), s)

module _ {ℓ} {S A B : Type ℓ} where
  abbrev pub continue : Result A → (A → Exec S B) → Exec S B
  continue (ok a) f s = f a s
  continue (err e) f s = (err e, s)

  infixl 5 ◌>>=◌ ◌>>◌
  abbrev pub ◌>>=◌ : Exec S A → (A → Exec S B) → Exec S B
  ◌>>=◌ m f s = let (r, s') = m s in continue r f s'

  abbrev pub ◌>>◌ : Exec S A → Exec S B → Exec S B
  m >> n = m >>= λ _. n

module _ {ℓ κ} {S A B : Type ℓ} (P : Result B × S → Type κ) where
  continue-cases :
      (r : Result A) (f : A → Exec S B) (s : S)
      → ((a : A) → r ≡ ok a → P (f a s))
      → ((e : Error) → r ≡ err e → P (err e, s))
      → P (continue r f s)
  continue-cases (ok a) f s good bad = good a refl
  continue-cases (err e) f s good bad = bad e refl

  -- What holds of the rest after a success, and of the state after an error, holds of `m >>= f`.
  pub bind-cases :
      (m : Exec S A) (f : A → Exec S B) (s : S)
      → ((a : A) → (m s).0 ≡ ok a → P (f a (m s).1))
      → ((e : Error) → (m s).0 ≡ err e → P (err e, (m s).1))
      → P ((m >>= f) s)
  bind-cases m f s good bad = let (r, s') = m s in continue-cases r f s' good bad

-- Whatever comes of `m`, `P` holds of the state afterwards if it held before.
abbrev pub Preserves {ℓ κ} : {S A : Type ℓ} → (S → Type κ) → Exec S A → Type (ℓ ⊔ κ)
Preserves {S} P m = (s : S) → P s → P (m s).1

pub bind-Preserves {ℓ κ} :
    {S A B : Type ℓ} (P : S → Type κ) (m : Exec S A) (f : A → Exec S B)
    → Preserves P m
    → ((a : A) → Preserves P (f a))
    → Preserves P (m >>= f)
bind-Preserves P m f hm hf s h =
    bind-cases (λ r. P r.1) m f s (λ a _. hf a (m s).1 (hm s h)) (λ _ _. hm s h)
