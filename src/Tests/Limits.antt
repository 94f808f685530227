-- ===== src/Tests/Limits.antt =====
-- The rate limiter with a Redis that is an association from keys to sorted sets.
use netdeploy.Base.{ℕ, ◌*◌, ◌≤◌, ◌≡◌, refl, true, List, [], ◌∷◌, length, none, some, arith}
use netdeploy.Text.{Text, codes, text_eq}
use netdeploy.Py.{ok}
use netdeploy.RateLimiter.{
  Command, zremrangebyscore, zadd, zcard, expire, Redis, Clock, Limits, Request, window_count,
}
use netdeploy.RateLimiter.Windows.{
  SortedSets, put, above, after_requests, let_through, within, window_count-length,
  let_through-bounded,
}

-- a store with one sorted set, whatever the key
abbrev Store : Type 0
Store = List (Text × ℕ)

step : Command → Store → ℕ × Store
step (zremrangebyscore key bound) s = (0, above bound s)
step (zadd key member score) s = (1, put member score s)
step (zcard key) s = (length s, s)
step (expire key window) s = (1, s)

execute : List Command → Store → List ℕ × Store
unfolding step
execute [] s = ([], s)
execute (c ∷ cs) s = let (n, s₁) = step c s in let (ns, s₂) = execute cs s₁ in (n ∷ ns, s₂)

abbrev one_set : Redis Store
one_set = record {
  execute = λ cs s. let (ns, s') = execute cs s in (ok ns, s');
  entries = λ s key. s;
}

-- a tick is a second, and the text of a time has that many characters
strokes : ℕ → Text
strokes ℕ.zero = []
strokes (ℕ.suc n) = b'|' ∷ strokes n

abbrev clock : Clock
clock = record { ticks = 1; time_text = strokes }

strokes_differ : (a b : ℕ) → text_eq (strokes a) (strokes b) ≡ true → a ≡ b
unfolding strokes text_eq
strokes_differ ℕ.zero ℕ.zero h = refl
strokes_differ ℕ.zero (ℕ.suc b) h = cc
strokes_differ (ℕ.suc a) ℕ.zero h = cc
strokes_differ (ℕ.suc a) (ℕ.suc b) h = let e = strokes_differ a b h in omega (arith, e)

one_set-SortedSets : SortedSets one_set clock
unfolding execute step
one_set-SortedSets = record {
  runs = λ key window now s. (_, refl, refl, refl);
  texts_differ = strokes_differ;
}

-- Three requests within ten seconds, at most two of which are let through.
let_through-bounded_example :
    length
      (within (10 * 1) 109 (let_through one_set clock (codes "k") 10 2 (105 ∷ 103 ∷ 100 ∷ []) []))
    ≤ 2
let_through-bounded_example =
    let_through-bounded one_set clock one_set-SortedSets (codes "k") 10 [] refl 2
      (105 ∷ 103 ∷ 100 ∷ []) 109
      ((ground arith, (ground arith, tt)), ((ground arith, tt), (tt, tt)))

window_count-length_example :
    (window_count one_set clock
      (codes "k")
      10
      105
      (after_requests one_set clock (codes "k") 10 (103 ∷ 90 ∷ []) [])).0
    ≡ ok 2
window_count-length_example =
    window_count-length one_set clock one_set-SortedSets (codes "k") 10 [] refl 105 (103 ∷ 90 ∷ [])
      ((ground arith, (ground arith, tt)), ((ground arith, tt), (tt, tt)))

abbrev limits : Limits
limits = record { limit = 1; window = 60; enabled = true }

abbrev request : Request
request = record {
  path = codes "/api/configs";
  method = codes "GET";
  forwarded_for = none;
  client = some (codes "10.0.0.7");
}
