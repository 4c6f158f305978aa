-- ===== src/Store/Migrations.antt =====
-- The opening of the database: internal/store/store.go. A statement is one question to the driver, as
-- in Store; a migration file is one statement for the driver, whose effect is only recorded here. sql.Open,
-- which does not connect, and the reading of the embedded files are taken to succeed; the sorted names
-- of the files are an argument.
pub mod Outcome
pub mod Enforced
use luars_stoatcord.Prelude.{
  ℕ, ◌+◌, ◌≤◌, ◌≡◌, ◌⊎◌, refl, sym, subst, ◌∙◌, String, Bool, true, false, not, ◌==◌, ◌||◌, List,
  [], ◌∷◌, ◌++◌, contains, select, length, All, if◌then◌else◌, arith, Bool-cases, inl, inr,
}
use mathlib.Core.Path.{subst₂}
use mathlib.Core.List.{append_assoc, append-nil}
use luars_stoatcord.Canonical.Result.{Result, ok, err, failed}
use luars_stoatcord.World.Exec.{Exec, pure, ◌>>=◌, ◌>>◌, continue}

-- The database as Open sees it: whether the connection enforces foreign keys, the file names in
-- schema_migrations, the files that were executed so far, and the statements so far.
pub record Schema : Type 0 where
  pub foreign_keys : Bool
  pub recorded : List String
  pub executed : List String
  pub asked : ℕ

module _ (fails : ℕ → Bool) where
  unfoldable pub sql : (Schema → Schema) → Exec Schema (Unit {0})
  sql f s =
      let s' = record s { asked = s.asked + 1 } in
      if fails s.asked then (err (failed "store: driver"), s') else (ok tt, f s')

  -- SELECT COUNT(*) FROM schema_migrations WHERE filename = ?
  unfoldable pub is_applied : String → Exec Schema Bool
  unfolding sql
  is_applied name = do sql (λ s. s); λ s. (ok (contains name s.recorded), s)

  -- The two statements that apply a file and record it.
  unfoldable pub apply_file : String → Exec Schema (Unit {0})
  unfolding sql
  apply_file name = do
    sql (λ s. record s { executed = s.executed ++ name ∷ [] })
    sql (λ s. record s { recorded = s.recorded ++ name ∷ [] })

  -- The loop of applyMigrations.
  unfoldable pub apply_each : List String → Exec Schema (Unit {0})
  apply_each [] = pure tt
  apply_each (name ∷ names) = do
    applied ← is_applied name
    if applied then pure tt else apply_file name
    apply_each names

  -- applyMigrations, of the files in the order of their names
  unfoldable pub apply_migrations : List String → Exec Schema (Unit {0})
  unfolding sql
  apply_migrations names = do sql (λ s. s); apply_each names

  -- openWithMigrations: busy_timeout, foreign_keys, and the migrations
  unfoldable pub open_with_migrations : List String → Exec Schema (Unit {0})
  unfolding sql
  open_with_migrations names = do
    sql (λ s. s)
    sql (λ s. record s { foreign_keys = true })
    apply_migrations names
