-- ===== src/Startup/Guarded.antt =====
-- What has happened when main (cmd/stoatcord/main.go) registers the handlers.
use luars_stoatcord.Prelude.{◌≡◌, refl, ap, List, [], ◌∷◌, All, arith}
use luars_stoatcord.Canonical.Result.{Result, ok, err}
use luars_stoatcord.Config.{Config, Loaded, loaded, bad_env_file, bad_dry_run, missing}
use luars_stoatcord.Startup.{pass, passed, prepare}
use luars_stoatcord.Startup.Gates.{
  Flock, granted, would_block, flock_failed, acquire, held, Steps, gates,
}

abbrev pub IsOk : Result (Unit {0}) → Type 0
IsOk r = r ≡ ok tt

-- What the handlers need is there.
abbrev pub Passed : Steps → Type 0
Passed s =
    (s.make_directory ≡ ok tt)
    × (s.open_lock_file ≡ ok tt)
    × (s.flock ≡ granted)
    × (s.open_store ≡ ok tt)
    × (s.new_stoat_client ≡ ok tt)
    × (s.new_discord_session ≡ ok tt)

pass-IsOk : (rs : List (Result (Unit {0}))) → pass rs ≡ ok tt → All IsOk rs
unfolding pass
pass-IsOk [] h = tt
pass-IsOk (ok tt ∷ rs) h = (refl, pass-IsOk rs h)
pass-IsOk (err e ∷ rs) h = absurd (ground arith)

held-granted :
    (r : Result (Unit {0})) (flock : Flock)
    → held (acquire r flock) ≡ ok tt
    → (flock ≡ granted) × (r ≡ ok tt)
unfolding acquire
held-granted (ok tt) granted h = (refl, refl)
held-granted (ok tt) would_block h = absurd (ground arith)
held-granted (ok tt) flock_failed h = absurd (ground arith)
held-granted (err e) flock h = absurd (ground arith)

gates-Passed : (s : Steps) (cfg : Config) → pass (gates s cfg) ≡ ok tt → Passed s
unfolding gates
gates-Passed s cfg h =
    let (_, (_, (directory, (_, (lock, (store, (client, (session, _)))))))) = pass-IsOk _ h in
    let (g, o) = held-granted s.open_lock_file s.flock lock in
    (directory, o, g, store, client, session)

abbrev kept : Config → Result Config → Config
kept cfg (ok c) = c
kept cfg (err _) = cfg

passed-ok :
    (cfg cfg' : Config) (r : Result (Unit {0}))
    → passed cfg r ≡ ok cfg'
    → (r ≡ ok tt) × (cfg ≡ cfg')
passed-ok cfg cfg' (ok tt) h = (refl, ap (kept cfg) h)
passed-ok cfg cfg' (err e) h = absurd (ground arith)

-- main registers the handlers only if the configuration was loaded, the data directory is there, this
-- instance holds the lock, the database was opened and both clients were constructed; and it goes on
-- with that configuration.
pub prepare-Passed :
    (config : Loaded) (steps : Steps) (cfg : Config)
    → prepare config steps ≡ ok cfg
    → (config ≡ loaded cfg) × Passed steps
unfolding prepare
prepare-Passed bad_env_file steps cfg h = absurd (ground arith)
prepare-Passed (bad_dry_run text) steps cfg h = absurd (ground arith)
prepare-Passed (missing names) steps cfg h = absurd (ground arith)
prepare-Passed (loaded cfg') steps cfg h =
    let (gone, same) = passed-ok cfg' cfg (pass (gates steps cfg')) h in
    (ap loaded same, gates-Passed steps cfg' gone)
