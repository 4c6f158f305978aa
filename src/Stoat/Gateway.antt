-- ===== src/Stoat/Gateway.antt =====
-- internal/stoat/gateway.go: the health of the connection to Stoat's gateway. Authenticated and
-- UnknownEvent only log.
use luars_stoatcord.Prelude.{Bool, true, false, Option, none, some, List, [], ◌∷◌, if◌then◌else◌}
use luars_stoatcord.Canonical.Result.{Result, ok, err, failed}

pub record Gateway : Type 0 where
  pub healthy : Bool

-- NewGateway
abbrev pub new_gateway : Gateway
new_gateway = record { healthy = false }

-- Ready
unfoldable pub ready : Gateway → Gateway
ready g = record g { healthy = true }

-- MarkDisconnected
unfoldable pub mark_disconnected : Gateway → Gateway
mark_disconnected g = record g { healthy = false }

-- What one turn of the loop of WaitForHealthy sees: the gateway, whether the deadline has passed, and
-- whether the context is done before the next turn.
pub record Poll : Type 0 where
  pub gateway : Gateway
  pub late : Bool
  pub cancelled : Bool

-- WaitForHealthy over the turns so far; none while it waits
unfoldable pub wait_for_healthy : List Poll → Option (Result (Unit {0}))
wait_for_healthy [] = none
wait_for_healthy (p ∷ polls) =
    let later = wait_for_healthy polls in
    if p.gateway.healthy
    then some (ok tt)
    else if p.late
    then some (err (failed "timed out"))
    else if p.cancelled
    then some (err (failed "context canceled"))
    else later
