-- ===== src/RateLimiter/Verdicts.antt =====
-- api/middleware/rate_limiter.py: which requests `dispatch` answers with 429.
use netdeploy.Base.{ℕ, ◌<◌, ◌≡◌, true, false, Option, none, some}
use netdeploy.Py.{Py, ok}
use netdeploy.RateLimiter.{
  Redis, Clock, Limits, Request, Outcome, forwarded, counted, too_many, is_exempt, tier, rate_key,
  window_count,
}

-- The answer is a 429.
abbrev pub TooMany : Outcome → Type 0
TooMany forwarded = ⊥
TooMany (counted limit remaining reset) = ⊥
TooMany (too_many limit reset retry) = Unit

module _ {S : Type 0} (clock : Clock) (cfg : Limits) (request : Request) (now later : ℕ)
    (s : S) where
  -- Redis answers, and counts more requests than the limit of the tier.
  abbrev pub OverLimit : Redis S → Type 0
  OverLimit redis =
      (n : ℕ) × ((window_count redis clock (rate_key request) (tier cfg request).1 now s).0 ≡ ok n)
      × ((tier cfg request).0 < n)

  abbrev pub Refused : Option (Redis S) → Type 0
  Refused none = ⊥
  Refused (some redis) = (cfg.enabled ≡ true) × (is_exempt request.path ≡ false) × OverLimit redis
