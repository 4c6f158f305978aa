-- ===== src/Startup/Gates.antt =====
-- The steps of main (cmd/stoatcord/main.go) before it registers the handlers, in their order, with Acquire of
-- internal/lock/lock.go and ParseLevel of internal/log/log.go. What the operating system, slog and the
-- constructors of the sessions return is a parameter.
use luars_stoatcord.Prelude.{String, ◌==◌, Option, none, some, List, [], ◌∷◌, if◌then◌else◌}
use luars_stoatcord.Canonical.Result.{Result, ok, err, failed}
use luars_stoatcord.Config.{Config, data_dir}

-- What flock returns for an exclusive lock without waiting.
pub data Flock : Type 0 where
  granted would_block flock_failed : Flock

-- ErrLocked, or another error, or the lock
pub data Acquired : Type 0 where
  acquired already_locked acquire_failed : Acquired

abbrev pub locked_by : Flock → Acquired
locked_by granted = acquired
locked_by would_block = already_locked
locked_by flock_failed = acquire_failed

-- Acquire, of what opening the file and flock return
unfoldable pub acquire : Result (Unit {0}) → Flock → Acquired
acquire (err _) flock = acquire_failed
acquire (ok _) flock = locked_by flock

-- slog.LevelInfo
abbrev pub level_info : String
level_info = "INFO"

abbrev pub parsed : Option String → Result String
parsed none = err (failed "log: invalid LOG_LEVEL")
parsed (some level) = ok level

-- ParseLevel; slog's UnmarshalText is a parameter
unfoldable pub parse_level : (String → Option String) → String → Result String
parse_level unmarshal s = if s == "" then ok level_info else parsed (unmarshal s)

-- What the steps of main return that are not this program's code, or have a model of their own.
pub record Steps : Type 0 where
  pub unmarshal : String → Option String
  pub getenv : String → String
  pub join : List String → String
  pub home : Option String
  pub make_directory : Result (Unit {0})
  pub open_log_file : Result (Unit {0})
  pub open_lock_file : Result (Unit {0})
  pub flock : Flock
  pub open_store : Result (Unit {0})
  pub new_stoat_client : Result (Unit {0})
  pub new_discord_session : Result (Unit {0})

abbrev pub checked : {A : Type 0} → Result A → Result (Unit {0})
checked (ok _) = ok tt
checked (err e) = err e

abbrev pub found : Option String → Result (Unit {0})
found none = err (failed "resolve data dir failed")
found (some _) = ok tt

abbrev pub held : Acquired → Result (Unit {0})
held acquired = ok tt
held already_locked = err (failed "another stoatcord instance is already running")
held acquire_failed = err (failed "acquire daemon lock failed")

-- The steps of main between the configuration and the registration of the handlers.
unfoldable pub gates : Steps → Config → List (Result (Unit {0}))
gates s cfg =
    checked (parse_level s.unmarshal cfg.log_level)
    ∷ found (data_dir s.getenv s.join s.home)
    ∷ s.make_directory
    ∷ s.open_log_file
    ∷ held (acquire s.open_lock_file s.flock)
    ∷ s.open_store
    ∷ s.new_stoat_client
    ∷ s.new_discord_session
    ∷ []
