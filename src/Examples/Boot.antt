-- ===== src/Examples/Boot.antt =====
-- The configuration and the opening of the database: one variable is missing, one file is recorded.
use luars_stoatcord.Prelude.{String, false, nat_eq, [], ◌∷◌, List, ◌==◌, if◌then◌else◌, refl}
use luars_stoatcord.Config.{load, Explained, missing_file, load-Explained}
use luars_stoatcord.Store.Migrations.{Schema, open_with_migrations}
use luars_stoatcord.Store.Migrations.Outcome.{MigratedFrom, pending, open-Migrated}

abbrev getenv : String → String
getenv name = if name == "STOAT_SERVER_ID" then "" else "x"

load-Explained_example : Explained getenv ".env" missing_file (load getenv ".env" missing_file)
load-Explained_example = load-Explained getenv ".env" missing_file

abbrev opened_before : Schema
opened_before = record {
  foreign_keys = false;
  recorded = "0001.sql" ∷ [];
  executed = "0001.sql" ∷ [];
  asked = 0;
}

abbrev files : List String
files = "0001.sql" ∷ "0002.sql" ∷ []

-- The record of the second file fails.
open-Migrated_example :
    MigratedFrom
      (pending opened_before files)
      opened_before
      (open_with_migrations (λ n. nat_eq n 6) files opened_before)
open-Migrated_example = open-Migrated (λ n. nat_eq n 6) files opened_before ((refl, tt), (tt, tt))
