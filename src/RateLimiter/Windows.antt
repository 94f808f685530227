-- ===== src/RateLimiter/Windows.antt =====
-- api/middleware/rate_limiter.py: `_sliding_window_check` over a history of requests for one key.
use netdeploy.Base.{
  ℕ, suc, ◌-◌, ◌*◌, ◌≤◌, ◌<◌, ◌≡◌, refl, sym, ap, ◌∙◌, Bool, true, false, not, ◌&&◌, List, [], ◌∷◌,
  map, length, some, All, All-keep, keep, ltb, leb, leb_iff, get_elem?, Bool-cases, inl, inr,
  if◌then◌else◌, arith,
}
use netdeploy.Text.{Text, text_eq}
use netdeploy.Py.{Py, ok, raised}
use netdeploy.RateLimiter.{
  Redis, Clock, pipeline, window_count, count_of, third, found_or_raise, allowed,
}

-- A member is in a sorted set once, with the last score that it was given.
abbrev pub put : Text → ℕ → List (Text × ℕ) → List (Text × ℕ)
put member score es = (member, score) ∷ keep (λ e. not (text_eq e.0 member)) es

-- What is left of a sorted set above a bound.
abbrev pub above : ℕ → List (Text × ℕ) → List (Text × ℕ)
above bound = keep (λ e. ltb bound e.1)

-- What Redis documents of the pipeline's commands, which run as one transaction. A key expires one
-- window after its last request, when the bound of the next one is above all its scores.
pub record SortedSets {S : Type 0} (redis : Redis S) (clock : Clock) : Type 0 where
  pub runs :
      (key : Text) (window now : ℕ) (s : S)
      → let (o, s') = redis.execute (pipeline redis clock key window now) s in
        let kept =
          put
            (clock.time_text now)
            now
            (above (now - window * clock.ticks) (redis.entries s key)) in
        (replies : List ℕ) × (o ≡ ok replies)
        × (get_elem? replies 2 ≡ some (length kept))
        × (redis.entries s' key ≡ kept)
  -- Different times have different texts.
  pub texts_differ : (a b : ℕ) → text_eq (clock.time_text a) (clock.time_text b) ≡ true → a ≡ b

-- A history lists the times of the requests, the latest first; no two are the same.
abbrev pub Descending : List ℕ → Type 0
Descending [] = Unit
Descending (t ∷ ts) = All (λ u. u < t) ts × Descending ts

-- the requests of a history after a bound
abbrev pub after_bound : ℕ → List ℕ → List ℕ
after_bound bound = keep (λ u. ltb bound u)

not_before : (u t : ℕ) → u < t → u ≡ t → ⊥
not_before u t before same = omega (arith, before, same)

count_of-state : {S : Type 0} (p : Py (List ℕ) × S) → (count_of p).1 ≡ p.1
unfolding count_of
count_of-state (raised e, s) = refl
count_of-state (ok results, s) = refl

count_of-count :
    {S : Type 0} (p : Py (List ℕ) × S) {results : List ℕ} {n : ℕ}
    → p.0 ≡ ok results
    → get_elem? results 2 ≡ some n
    → (count_of p).0 ≡ ok n
unfolding count_of third found_or_raise
count_of-count (raised e, s) h k = cc
count_of-count (ok rs, s) {results} h k =
    let same : rs ≡ results = cc in ap third same ∙ ap found_or_raise k

length-map : {A B : Type 0} (f : A → B) (xs : List A) → length (map f xs) ≡ length xs
length-map f [] = refl
length-map f (x ∷ xs) = ap suc (length-map f xs)

-- the requests of a window that ends at a time
abbrev pub within : ℕ → ℕ → List ℕ → List ℕ
within span end = keep (λ u. ltb (end - span) u && leb u end)

-- A longer history has no fewer requests after a bound.
longer :
    (bound t : ℕ) (ts : List ℕ) {n : ℕ}
    → n ≤ length (after_bound bound ts)
    → n ≤ length (after_bound bound (t ∷ ts))
longer bound t ts h = elim (Bool-cases (ltb bound t)) [
  | inl e ↦ rw e (omega (arith, h))
  | inr e ↦ rw e h
]

-- Where the check fails, the request is let through.
passes : ℕ → Py ℕ → Bool
passes limit (ok n) = allowed limit n
passes limit (raised e) = true

module _ {S : Type 0} (redis : Redis S) (clock : Clock) (key : Text) (window : ℕ) where
  -- the store after a history
  unfoldable pub after_requests : List ℕ → S → S
  after_requests [] s = s
  after_requests (t ∷ ts) s = (window_count redis clock key window t (after_requests ts s)).1

  -- the requests of a history that are let through
  unfoldable pub let_through : ℕ → List ℕ → S → List ℕ
  unfolding passes
  let_through limit [] s = []
  let_through limit (t ∷ ts) s =
      let rest = let_through limit ts s in
      if passes limit (window_count redis clock key window t (after_requests ts s)).0
      then t ∷ rest
      else rest

ends_later : (t end span : ℕ) → ltb (end - span) t && leb t end ≡ true → t - span ≤ end - span
ends_later t end span h = let le : t ≤ end = (leb_iff t end).0 (ground arith) in omega (arith, le)

module _ {S : Type 0} (redis : Redis S) (clock : Clock) (laws : SortedSets redis clock) (key : Text)
    (window : ℕ) where
  abbrev span : ℕ
  span = window * clock.ticks

  abbrev stamp : ℕ → Text × ℕ
  stamp t = (clock.time_text t, t)

  -- what the sorted set holds then
  in_window : List ℕ → List ℕ
  in_window [] = []
  in_window (t ∷ ts) = t ∷ after_bound (t - span) ts

  above-stamps : (b : ℕ) (ts : List ℕ) → above b (map stamp ts) ≡ map stamp (after_bound b ts)
  above-stamps b [] = refl
  above-stamps b (t ∷ ts) = elim (Bool-cases (ltb b t)) [
    | inl e ↦ rw e (ap (λ xs. stamp t ∷ xs) (above-stamps b ts))
    | inr e ↦ rw e (above-stamps b ts)
  ]

  -- A later bound forgets an earlier one.
  after_bound-twice :
      (a b : ℕ) (ts : List ℕ) → a ≤ b → after_bound b (after_bound a ts) ≡ after_bound b ts
  after_bound-twice a b [] le = refl
  after_bound-twice a b (t ∷ ts) le = elim (Bool-cases (ltb a t)) [
    | inl e ↦ elim (Bool-cases (ltb b t)) [
      | inl f ↦ rw e (rw f (ap (λ xs. t ∷ xs) (after_bound-twice a b ts le)))
      | inr f ↦ rw e (rw f (after_bound-twice a b ts le))
    ]
    | inr e ↦
        let f : ltb b t ≡ false = ground (arith, le) in rw e (rw f (after_bound-twice a b ts le))
  ]

  after_bound-in_window :
      (t : ℕ) (ts : List ℕ)
      → All (λ u. u < t) ts
      → after_bound (t - span) (in_window ts) ≡ after_bound (t - span) ts
  unfolding in_window
  after_bound-in_window t [] h = refl
  after_bound-in_window t (u ∷ us) h =
      ap (λ xs. if ltb (t - span) u then u ∷ xs else xs)
        (after_bound-twice (u - span) (t - span) us (omega (arith, h.0)))

  -- Earlier times have other texts.
  keep-earlier :
      (t : ℕ) (ts : List ℕ)
      → All (λ u. u < t) ts
      → keep (λ e. not (text_eq e.0 (clock.time_text t))) (map stamp ts) ≡ map stamp ts
  keep-earlier t [] h = refl
  keep-earlier t (u ∷ us) h = elim (Bool-cases (text_eq (clock.time_text u) (clock.time_text t))) [
    | inl e ↦ elim (not_before u t h.0 (laws.texts_differ u t e)) [ ]
    | inr e ↦ rw e (ap (λ xs. stamp u ∷ xs) (keep-earlier t us h.1))
  ]

  -- One more request keeps the entries after its bound, and adds its own.
  kept-stamps :
      (t : ℕ) (ts : List ℕ)
      → All (λ u. u < t) ts
      → put (clock.time_text t) t (above (t - span) (map stamp (in_window ts)))
        ≡ map stamp (in_window (t ∷ ts))
  unfolding in_window
  kept-stamps t ts h =
      rw (above-stamps (t - span) (in_window ts), after_bound-in_window t ts h)
        (ap (λ es. stamp t ∷ es) (keep-earlier t (after_bound (t - span) ts) (All-keep _ _ ts h)))

  module _ (s₀ : S) (empty : redis.entries s₀ key ≡ []) where
    -- the entries after one more request, given those before it
    next_entries :
        (t : ℕ) (ts : List ℕ) (s : S)
        → All (λ u. u < t) ts
        → redis.entries s key ≡ map stamp (in_window ts)
        → put (clock.time_text t) t (above (t - span) (redis.entries s key))
          ≡ map stamp (in_window (t ∷ ts))
    next_entries t ts s h e =
        ap (λ es. put (clock.time_text t) t (above (t - span) es)) e ∙ kept-stamps t ts h

    entries_after :
        (ts : List ℕ)
        → Descending ts
        → redis.entries (after_requests redis clock key window ts s₀) key ≡ map stamp (in_window ts)
    unfolding after_requests window_count in_window
    entries_after [] h = empty
    entries_after (t ∷ ts) h =
        let s = after_requests redis clock key window ts s₀ in
        let (replies, done, third_reply, kept) = laws.runs key window t s in
        ap (λ x. redis.entries x key)
          (count_of-state (redis.execute (pipeline redis clock key window t) s))
        ∙ (kept ∙ next_entries t ts s h.0 (entries_after ts h.1))

    -- The count of the latest request is the number of requests of its window, with itself and
    -- with those that were refused.
    pub window_count-length :
        (t : ℕ) (ts : List ℕ)
        → Descending (t ∷ ts)
        → (window_count redis clock key window t (after_requests redis clock key window ts s₀)).0
          ≡ ok (suc (length (after_bound (t - span) ts)))
    unfolding window_count in_window
    window_count-length t ts h =
        let s = after_requests redis clock key window ts s₀ in
        let (replies, done, third_reply, kept) = laws.runs key window t s in
        count_of-count (redis.execute (pipeline redis clock key window t) s) done third_reply
        ∙ ap ok (
            ap length (next_entries t ts s h.0 (entries_after ts h.1))
            ∙ length-map stamp (in_window (t ∷ ts)))

    module _ (limit : ℕ) where
      through-fewer :
          (end bound : ℕ) (ts : List ℕ)
          → bound ≤ end - span
          → length (within span end (let_through redis clock key window limit ts s₀))
            ≤ length (after_bound bound ts)
      unfolding let_through
      through-fewer end bound [] le = omega arith
      through-fewer end bound (t ∷ ts) le =
          let rest = through-fewer end bound ts le in
          elim (Bool-cases (
            passes limit
              (window_count redis clock key window t
                (after_requests redis clock key window ts s₀)).0)) [
                  | inl e ↦ elim (Bool-cases (ltb (end - span) t && leb t end)) [
                    | inl f ↦
                        let g : ltb bound t ≡ true = ground (arith, le) in
                        rw e (rw f (rw g (omega (arith, rest))))
                    | inr f ↦ rw e (rw f (longer bound t ts rest))
                  ]
                  | inr e ↦ rw e (longer bound t ts rest)
                ]

      -- If Redis keeps sorted sets as it documents, no two requests come at the same time and the key
      -- held nothing at first, then in every window of the given length, wherever it ends, at most
      -- `limit` requests of the key are let through.
      pub let_through-bounded :
          (ts : List ℕ) (end : ℕ)
          → Descending ts
          → length (within span end (let_through redis clock key window limit ts s₀)) ≤ limit
      unfolding let_through passes allowed
      let_through-bounded [] end h = omega arith
      let_through-bounded (t ∷ ts) end h =
          let rest = let_through-bounded ts end h.1 in
          let count = window_count-length t ts h in
          elim (Bool-cases (
            passes limit
              (window_count redis clock key window t
                (after_requests redis clock key window ts s₀)).0)) [
                  | inl e ↦
                      let few : suc (length (after_bound (t - span) ts)) ≤ limit =
                        (leb_iff (suc (length (after_bound (t - span) ts))) limit).0
                          (ap (passes limit) (sym count) ∙ e) in
                      elim (Bool-cases (ltb (end - span) t && leb t end)) [
                        | inl f ↦
                            let le : t - span ≤ end - span = ends_later t end span f in
                            let fewer = through-fewer end (t - span) ts le in
                            rw e (rw f (omega (arith, few, fewer)))
                        | inr f ↦ rw e (rw f rest)
                      ]
                  | inr e ↦ rw e rest
                ]
