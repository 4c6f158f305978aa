-- ===== src/Config.antt =====
-- internal/config/config.go. The environment is a function from
-- a name to its value, empty for a name that is not set, after godotenv has read the file.
use mathlib.Core.Bool.{true≢false, false≢true}
use luars_stoatcord.Prelude.{
  String, ◌≡◌, ◌≢◌, refl, sym, ◌∙◌, ◌⊎◌, inl, inr, Bool, true, false, not, ◌==◌, Option, none, some,
  List, [], ◌∷◌, ◌++◌, contains, select, if◌then◌else◌, arith, eq_iff, Bool-cases,
}

-- Config
pub record Config : Type 0 where
  pub discord_token : String
  pub stoat_token : String
  pub discord_guild : String
  pub stoat_server_id : String
  pub stoat_api_base : String
  pub log_level : String
  pub dry_run : Bool

abbrev pub env_discord_token : String
env_discord_token = "STOATCORD_DISCORD_TOKEN"

abbrev pub env_stoat_token : String
env_stoat_token = "STOATCORD_STOAT_TOKEN"

abbrev pub env_discord_guild : String
env_discord_guild = "DISCORD_SERVER_ID"

abbrev pub env_stoat_server_id : String
env_stoat_server_id = "STOAT_SERVER_ID"

abbrev pub env_stoat_api_base : String
env_stoat_api_base = "STOAT_API_BASE"

abbrev pub env_log_level : String
env_log_level = "LOG_LEVEL"

abbrev pub env_dry_run : String
env_dry_run = "STOATCORD_DRY_RUN"

abbrev pub default_stoat_api_base : String
default_stoat_api_base = "https://api.revolt.chat"

abbrev pub default_dry_run : Bool
default_dry_run = true

-- What godotenv.Load returns: nil, an error of os.IsNotExist, or another error.
pub data DotEnv : Type 0 where
  read missing_file unreadable : DotEnv

-- The configuration, or one of the errors of Load.
pub data Loaded : Type 0 where
  loaded : Config → Loaded
  bad_env_file : Loaded
  bad_dry_run : String → Loaded
  missing : List String → Loaded

-- strconv.ParseBool
unfoldable pub parse_bool : String → Option Bool
parse_bool s =
    if contains s ("1" ∷ "t" ∷ "T" ∷ "TRUE" ∷ "true" ∷ "True" ∷ [])
    then some true
    else if contains s ("0" ∷ "f" ∷ "F" ∷ "FALSE" ∷ "false" ∷ "False" ∷ [])
    then some false
    else none

abbrev pub or_default : String → String → String
or_default value default = if value == "" then default else value

-- DryRun, or none for a value that does not parse
unfoldable pub dry_run_setting : String → Option Bool
dry_run_setting text = if text == "" then some default_dry_run else parse_bool text

abbrev pub if_empty : String → String → List String → List String
if_empty value name names = if value == "" then names ++ name ∷ [] else names

-- The names of the required variables that are missing, in the order of the checks.
unfoldable pub missing_names : Config → List String
missing_names cfg = if_empty cfg.stoat_server_id env_stoat_server_id (
    if_empty cfg.discord_guild env_discord_guild
      (if_empty cfg.stoat_token env_stoat_token (if_empty cfg.discord_token env_discord_token [])))

abbrev pub complete : Config → List String → Loaded
complete cfg [] = loaded cfg
complete cfg (name ∷ names) = missing (name ∷ names)

-- DataDir without XDG_DATA_HOME, below the home directory if there is one
abbrev in_home : (List String → String) → Option String → Option String
in_home join none = none
in_home join (some home) = some (join (home ∷ ".local" ∷ "share" ∷ "stoatcord" ∷ []))

module _ (getenv : String → String) where
  abbrev pub config_with : Bool → Config
  config_with dry_run = record {
    discord_token = getenv env_discord_token;
    stoat_token = getenv env_stoat_token;
    discord_guild = getenv env_discord_guild;
    stoat_server_id = getenv env_stoat_server_id;
    stoat_api_base = or_default (getenv env_stoat_api_base) default_stoat_api_base;
    log_level = getenv env_log_level;
    dry_run = dry_run;
  }

  abbrev pub with_dry_run : Option Bool → Loaded
  with_dry_run none = bad_dry_run (getenv env_dry_run)
  with_dry_run (some dry_run) = complete (config_with dry_run) (missing_names (config_with dry_run))

  abbrev pub after_env_file : DotEnv → Loaded
  after_env_file unreadable = bad_env_file
  after_env_file _ = with_dry_run (dry_run_setting (getenv env_dry_run))

  -- Load
  unfoldable pub load : String → DotEnv → Loaded
  load env_file outcome = after_env_file (if env_file == "" then read else outcome)

  -- DataDir; filepath.Join and what os.UserHomeDir returns are parameters
  unfoldable pub data_dir : (List String → String) → Option String → Option String
  data_dir join home =
      if not (getenv "XDG_DATA_HOME" == "")
      then some (join (getenv "XDG_DATA_HOME" ∷ "stoatcord" ∷ []))
      else in_home join home

  abbrev pub required : List String
  required = env_discord_token ∷ env_stoat_token ∷ env_discord_guild ∷ env_stoat_server_id ∷ []

  -- What each outcome of Load says of the environment.
  abbrev pub Explained : String → DotEnv → Loaded → Type 0
  Explained file outcome (loaded cfg) =
      (select (λ name. getenv name == "") required ≡ [])
      × (cfg.stoat_api_base ≢ "")
      × ((cfg.dry_run ≡ true) ⊎ (parse_bool (getenv env_dry_run) ≡ some false))
  Explained file outcome bad_env_file = (file ≢ "") × (outcome ≡ unreadable)
  Explained file outcome (bad_dry_run text) =
      (text ≡ getenv env_dry_run) × (text ≢ "") × (parse_bool text ≡ none)
  Explained file outcome (missing names) =
      (names ≡ select (λ name. getenv name == "") required) × (names ≢ [])

  missing_names_lem :
      (dry_run : Bool)
      → missing_names (config_with dry_run) ≡ select (λ name. getenv name == "") required
  unfolding missing_names
  missing_names_lem dry_run = ground arith

  or_default-ne : (value : String) → or_default value default_stoat_api_base ≢ ""
  or_default-ne value = elim (Bool-cases (value == "")) [
    | inl e ↦ rw e (λ h. false≢true ((eq_iff default_stoat_api_base "").1 h))
    | inr e ↦ rw e (λ h. true≢false (sym ((eq_iff value "").1 h) ∙ e))
  ]

  module _ (file : String) (outcome : DotEnv) where
    complete-Explained :
        (dry_run : Bool) (names : List String)
        → (dry_run ≡ true) ⊎ (parse_bool (getenv env_dry_run) ≡ some false)
        → names ≡ select (λ name. getenv name == "") required
        → Explained file outcome (complete (config_with dry_run) names)
    complete-Explained dry_run [] d e = (sym e, or_default-ne (getenv env_stoat_api_base), d)
    complete-Explained dry_run (name ∷ names) d e = (e, λ h. ground arith)

    setting-Explained :
        (o : Option Bool)
        → dry_run_setting (getenv env_dry_run) ≡ o
        → Explained file outcome (with_dry_run o)
    unfolding dry_run_setting
    setting-Explained none h = ground (arith, eq_iff (getenv env_dry_run) "")
    setting-Explained (some true) h = complete-Explained true _ (inl refl) (missing_names_lem true)
    setting-Explained (some false) h =
        complete-Explained false _ (inr (ground arith)) (missing_names_lem false)

    read-Explained :
        (o : DotEnv)
        → (if file == "" then read else outcome) ≡ o
        → Explained file outcome (after_env_file o)
    read-Explained read h = setting-Explained (dry_run_setting (getenv env_dry_run)) refl
    read-Explained missing_file h = setting-Explained (dry_run_setting (getenv env_dry_run)) refl
    read-Explained unreadable h = ground (arith, eq_iff file "")

    -- Load: a configuration is returned only if all four required variables are set; its API base
    -- is not empty, and it is not a dry run only if STOATCORD_DRY_RUN parses as false. Else a file
    -- was named and could not be read, or STOATCORD_DRY_RUN is set and does not parse, or the
    -- variables that are named are all those of the four that are empty, and there is one.
    pub load-Explained : Explained file outcome (load file outcome)
    unfolding load
    load-Explained = read-Explained (if file == "" then read else outcome) refl
