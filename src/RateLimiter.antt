-- ===== src/RateLimiter.antt =====
-- api/middleware/rate_limiter.py. Redis is a parameter: what it does with a pipeline of commands.
-- A time is a number of clock ticks since 1970, so no window reaches back before it.
pub mod Windows
pub mod Verdicts
use netdeploy.Base.{
  ℕ, zero, suc, ◌+◌, ◌-◌, ◌*◌, ◌/◌, String, Bool, true, false, not, ◌&&◌, ◌||◌, List, [], ◌∷◌, ◌++◌,
  map, any, Option, none, some, ◌==◌, leb, get_elem?, if◌then◌else◌,
}
use netdeploy.Text.{Text, codes, split_on, strip, starts_with, text_eq}
use netdeploy.Py.{Py, Exn, ok, raised, foreign}

-- the commands of the pipeline; a bound and a score are ticks
pub data Command : Type 0 where
  zremrangebyscore : Text → ℕ → Command
  zadd : Text → Text → ℕ → Command
  zcard : Text → Command
  expire : Text → ℕ → Command

-- `pipe.execute()`, with the members and scores that the sorted set of a key holds
pub record Redis (S : Type 0) : Type 0 where
  pub execute : List Command → S → Py (List ℕ) × S
  pub entries : S → Text → List (Text × ℕ)

-- the clock: ticks in a second, and the text of a time
pub record Clock : Type 0 where
  pub ticks : ℕ
  pub time_text : ℕ → Text

found_or_raise : Option ℕ → Py ℕ
found_or_raise none = raised (foreign (codes "list index out of range"))
found_or_raise (some n) = ok n

-- `results[2]`
third : List ℕ → Py ℕ
unfolding found_or_raise
third results = found_or_raise (get_elem? results 2)

count_of : {S : Type 0} → Py (List ℕ) × S → Py ℕ × S
unfolding third
count_of (raised e, s) = (raised e, s)
count_of (ok results, s) = (third results, s)

module _ {S : Type 0} (redis : Redis S) (clock : Clock) where
  abbrev pub pipeline : Text → ℕ → ℕ → List Command
  pipeline key window now =
      zremrangebyscore key (now - window * clock.ticks)
      ∷ zadd key (clock.time_text now) now
      ∷ zcard key
      ∷ expire key window
      ∷ []

  -- the count of `_sliding_window_check`: the request is allowed if it is at most the limit, and
  -- the reset is the window
  unfoldable pub window_count : Text → ℕ → ℕ → S → Py ℕ × S
  unfolding count_of
  window_count key window now s = count_of (redis.execute (pipeline key window now) s)

unfoldable pub allowed : ℕ → ℕ → Bool
allowed limit count = leb count limit

-- `_get_settings_limits`: the attributes of the settings that exist
pub record Limits : Type 0 where
  pub limit : ℕ
  pub window : ℕ
  pub enabled : Bool

or_else {ℓ} : {A : Type ℓ} → Option A → A → A
or_else none d = d
or_else (some a) d = a

unfoldable pub get_settings_limits : Option ℕ → Option ℕ → Option Bool → Limits
unfolding or_else
get_settings_limits requests window enabled = record {
  limit = or_else requests 100;
  window = or_else window 60;
  enabled = or_else enabled true;
}

pub record Request : Type 0 where
  pub path : Text
  pub method : Text
  pub forwarded_for : Option Text
  pub client : Option Text

-- `request.client.host`, or "unknown"
client_host : Option Text → Text
client_host none = codes "unknown"
client_host (some host) = host

-- `forwarded_for.split(",")[0].strip()`; a split has a first part
first_address : List Text → Text
first_address [] = []
first_address (p ∷ ps) = strip p

forwarded_or : Option Text → Text → Text
unfolding first_address
forwarded_or none host = host
forwarded_or (some []) host = host
forwarded_or (some (c ∷ t)) host = first_address (split_on b',' (c ∷ t))

unfoldable pub extract_ip : Request → Text
unfolding client_host forwarded_or
extract_ip request = forwarded_or request.forwarded_for (client_host request.client)

abbrev exempt_paths : List Text
exempt_paths =
    codes "/health"
    ∷ codes "/metrics"
    ∷ codes "/docs"
    ∷ codes "/redoc"
    ∷ codes "/openapi.json"
    ∷ codes "/"
    ∷ []

abbrev strict_paths : List Text
strict_paths = codes "/api/deployments" ∷ codes "/api/devices" ∷ []

unfoldable pub is_exempt : Text → Bool
is_exempt path =
    any (text_eq path) exempt_paths
    || starts_with (codes "/docs") path
    || starts_with (codes "/redoc") path

unfoldable pub is_strict : Request → Bool
is_strict request =
    any (λ p. starts_with p request.path) strict_paths && text_eq request.method (codes "POST")

-- `f"rate:{client_ip}:{path.replace('/', '_')}"`
unfoldable pub rate_key : Request → Text
rate_key request =
    codes "rate:"
    ++ (extract_ip request ++ (codes ":" ++ map (λ c. if c == b'/' then b'_' else c) request.path))

-- What becomes of a request: `call_next` alone, `call_next` with the headers limit, remaining and
-- reset, or a 429 with the headers limit, reset and retry-after.
pub data Outcome : Type 0 where
  forwarded : Outcome
  counted : ℕ → ℕ → ℕ → Outcome
  too_many : ℕ → ℕ → ℕ → Outcome

-- the limit and the window of the request's tier
unfoldable pub tier : Limits → Request → ℕ × ℕ
tier cfg request = if is_strict request then (10, 60) else (cfg.limit, cfg.window)

-- the verdict on a count, with the second reading of the clock
unfoldable pub verdict : ℕ → ℕ → ℕ → Py ℕ → Outcome
verdict limit window seconds (raised e) = forwarded
verdict limit window seconds (ok count) =
    if allowed limit count
    then counted limit (limit - count) (seconds + window)
    else too_many limit (seconds + window) window

module _ {S : Type 0} (clock : Clock) (cfg : Limits) where
  -- after the fast paths; no Redis fails open
  checked : Option (Redis S) → Request → ℕ → ℕ → S → Outcome × S
  unfolding verdict tier
  checked none request now later s = (forwarded, s)
  checked (some redis) request now later s =
      let (limit, window) = tier cfg request in
      let (count, s') = window_count redis clock (rate_key request) window now s in
      (verdict limit window (later / clock.ticks) count, s')

  -- `dispatch`, with its two readings of the clock
  unfoldable pub dispatch : Option (Redis S) → Request → ℕ → ℕ → S → Outcome × S
  unfolding checked
  dispatch redis request now later s =
      if not cfg.enabled || is_exempt request.path
      then (forwarded, s)
      else checked redis request now later s
