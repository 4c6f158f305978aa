-- ===== src/Engine/Limiter.antt =====
-- internal/engine/rate_limiter.go. Times and durations are nanoseconds on the monotonic clock, the
-- zero time is 0. The mutexes make every critical section one step at the time that `now` reads.
pub mod Spacing
pub mod Buckets
use Prim.Native.Char.{code}
use Prim.Native.String.{◌∷◌ as char_cons, [] as no_chars}
use luars_stoatcord.Prelude.{
  ℕ, ◌+◌, String, Bool, true, false, ◌==◌, Option, none, some, List, [], ◌∷◌, nat_eq, ltb, leb,
  if◌then◌else◌,
}
use luars_stoatcord.Prelude.Maps.{Map, lookup, insert}

-- GlobalRateLimiter
pub record Limiter : Type 0 where
  pub min_interval : ℕ
  pub next_allowed : ℕ

unfoldable pub new_limiter : ℕ → Limiter
new_limiter interval = record { min_interval = interval; next_allowed = 0 }

abbrev pub later : ℕ → ℕ → ℕ
later a b = if ltb a b then b else a

-- One turn of the loop of Wait: whether the call may go on, or the time to sleep until.
unfoldable pub try_wait : ℕ → Limiter → Bool × Limiter
try_wait now l =
    if leb l.next_allowed now
    then (true, record l { next_allowed = later now l.next_allowed + l.min_interval })
    else (false, l)

-- GlobalRateLimiter.Backoff, with the Retry-After as a duration
unfoldable pub backoff : ℕ → ℕ → Limiter → Limiter
backoff now duration l = record l { next_allowed = later l.next_allowed (now + duration) }

-- What the callers of one limiter do, in the order of its mutex.
pub data Call : Type 0 where
  turn : ℕ → Call
  back_off : (now duration : ℕ) → Call

abbrev pub granted : Bool × Limiter → ℕ → List ℕ → List ℕ
granted (true, _) now gs = now ∷ gs
granted (false, _) now gs = gs

-- The times at which calls go on.
unfoldable pub grants : List Call → Limiter → List ℕ
grants [] l = []
grants (turn now ∷ cs) l = granted (try_wait now l) now (grants cs (try_wait now l).1)
grants (back_off now d ∷ cs) l = grants cs (backoff now d l)

-- BucketedRateLimiter
pub record Bucketed : Type 0 where
  pub limiters : Map Limiter
  pub intervals : Map ℕ
  pub default_interval : ℕ

-- NewBucketedRateLimiter
unfoldable pub new_bucketed : Map ℕ → ℕ → Bucketed
new_bucketed intervals d = record { limiters = []; intervals = intervals; default_interval = d }

-- The part of strings.Cut(key, ":") before the colon.
unfoldable pub bucket_name : String → String
bucket_name String.[] = ""
bucket_name (String.◌∷◌ c s) =
    let rest = bucket_name s in if nat_eq (code c) 58 then "" else String.◌∷◌ c rest

abbrev pub or_default : ℕ → Option ℕ → ℕ
or_default d none = d
or_default d (some n) = n

abbrev pub or_new : ℕ → Option Limiter → Limiter
or_new interval none = new_limiter interval
or_new interval (some l) = l

-- subLimiter: the limiter of a key, and the map with it stored
unfoldable pub sub_limiter : String → Bucketed → Limiter
sub_limiter key b =
    or_new (or_default b.default_interval (lookup (bucket_name key) b.intervals))
      (lookup key b.limiters)

abbrev pub store_limiter : String → Limiter → Bucketed → Bucketed
store_limiter key l b = record b { limiters = insert key l b.limiters }

-- BucketedRateLimiter.Wait (one turn) and Backoff; a sub-limiter is a pointer, so it is stored back.
unfoldable pub bucket_turn : String → ℕ → Bucketed → Bool × Bucketed
bucket_turn key now b =
    let (ok, l) = try_wait now (sub_limiter key b) in (ok, store_limiter key l b)

unfoldable pub bucket_backoff : String → ℕ → ℕ → Bucketed → Bucketed
bucket_backoff key now d b = store_limiter key (backoff now d (sub_limiter key b)) b

abbrev pub granted_key : Bool × Bucketed → String → ℕ → List (String × ℕ) → List (String × ℕ)
granted_key (true, _) key now gs = (key, now) ∷ gs
granted_key (false, _) key now gs = gs

-- The times at which the calls of each key go on.
unfoldable pub bucket_grants : List (String × Call) → Bucketed → List (String × ℕ)
bucket_grants [] b = []
bucket_grants ((key, turn now) ∷ cs) b =
    granted_key (bucket_turn key now b) key now (bucket_grants cs (bucket_turn key now b).1)
bucket_grants ((key, back_off now d) ∷ cs) b = bucket_grants cs (bucket_backoff key now d b)
