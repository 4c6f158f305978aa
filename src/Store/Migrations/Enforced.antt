-- ===== src/Store/Migrations/Enforced.antt =====
-- PRAGMA foreign_keys in openWithMigrations (internal/store/store.go).
use luars_stoatcord.Prelude.{
  ℕ, String, ◌≡◌, refl, Bool, true, false, ◌+◌, List, [], ◌∷◌, ◌++◌, Bool-cases, inl, inr, arith,
  if◌then◌else◌,
}
use luars_stoatcord.Canonical.Result.{ok}
use luars_stoatcord.World.Exec.{pure, Preserves, bind-Preserves}
use luars_stoatcord.Store.Migrations.{
  Schema, sql, is_applied, apply_file, apply_each, apply_migrations, open_with_migrations,
}

abbrev Enforced : Schema → Type 0
Enforced s = s.foreign_keys ≡ true

module _ (fails : ℕ → Bool) where
  sql-Enforced :
      (f : Schema → Schema)
      → ((s : Schema) → Enforced s → Enforced (f s))
      → Preserves Enforced (sql fails f)
  unfolding sql
  sql-Enforced f h s e = elim (Bool-cases (fails s.asked)) [ inl b ↦ rw b e | inr b ↦ rw b (h _ e) ]

  applied-Enforced : (name : String) → Preserves Enforced (is_applied fails name)
  unfolding is_applied
  applied-Enforced name =
      bind-Preserves Enforced (sql fails (λ s. s)) _ (sql-Enforced (λ s. s) (λ s e. e)) (λ _ s e. e)

  file-Enforced : (name : String) → Preserves Enforced (apply_file fails name)
  unfolding apply_file
  file-Enforced name =
      bind-Preserves Enforced (sql fails (λ s. record s { executed = s.executed ++ name ∷ [] }))
        (λ _. sql fails (λ s. record s { recorded = s.recorded ++ name ∷ [] }))
        (sql-Enforced (λ s. record s { executed = s.executed ++ name ∷ [] }) (λ s e. e))
        (λ _. sql-Enforced (λ s. record s { recorded = s.recorded ++ name ∷ [] }) (λ s e. e))

  once-Enforced :
      (b : Bool) (name : String) → Preserves Enforced (if b then pure tt else apply_file fails name)
  once-Enforced true name s e = e
  once-Enforced false name s e = file-Enforced name s e

  each-Enforced : (names : List String) → Preserves Enforced (apply_each fails names)
  unfolding apply_each
  each-Enforced [] = λ s e. e
  each-Enforced (name ∷ names) =
      bind-Preserves Enforced (is_applied fails name) _ (applied-Enforced name) (λ b.
        bind-Preserves Enforced (if b then pure tt else apply_file fails name) _
          (once-Enforced b name) (λ _. each-Enforced names))

  migrations-Enforced : (names : List String) → Preserves Enforced (apply_migrations fails names)
  unfolding apply_migrations
  migrations-Enforced names =
      bind-Preserves Enforced (sql fails (λ s. s)) _ (sql-Enforced (λ s. s) (λ s e. e))
        (λ _. each-Enforced names)

  -- A database that Open opens enforces foreign keys.
  pub open-Enforced :
      (names : List String) (s : Schema)
      → (open_with_migrations fails names s).0 ≡ ok tt
      → (open_with_migrations fails names s).1.foreign_keys ≡ true
  unfolding open_with_migrations sql
  open-Enforced names s h = elim (Bool-cases (fails s.asked)) [
    | inl b ↦ absurd (ground arith)
    | inr b ↦ elim (Bool-cases (fails (s.asked + 1))) [
      | inl d ↦ absurd (ground arith)
      | inr d ↦ rw (b, d) (migrations-Enforced names _ refl)
    ]
  ]
