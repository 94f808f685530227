-- ===== src/Validator/Ranges.antt =====
-- core/validator.py: the rules on single numbers and addresses, exactly.
use netdeploy.Base.{
  ℕ, ◌≡◌, refl, ◌↔◌, ◌⊎◌, ◌≤◌, ◌*◌, ◌+◌, Bool, true, false, not, List, [], ◌∷◌, ◌++◌, Option, none,
  some, ◌==◌, ltb, arith, if◌then◌else◌, ℤ, pos, negsuc,
}
use netdeploy.Value.{Value, int, as_int, value_eq}
use netdeploy.Py.{Py, ok, ◌>>=◌, times, less}
use netdeploy.Ip.{ipv4_address, is_loopback, is_reserved}
use netdeploy.Validator.Issues.{Issue, bad_asn, short_hold_time}
use netdeploy.Validator.Rules.{
  flag, validate_asn, validate_neighbor_ip, neighbor_issues, validate_timers, in_range,
}

pub append-nil-both {ℓ} : {A : Type ℓ} (xs ys : List A) → xs ++ ys ≡ [] → (xs ≡ []) × (ys ≡ [])
append-nil-both [] ys h = (refl, h)
append-nil-both (x ∷ xs) ys h = cc

pub flag-nil : (test : Bool) (i : Issue) → flag test i ≡ [] → test ≡ false
flag-nil true i h = cc
flag-nil false i h = refl

-- an ASN that a BGP configuration may name
abbrev pub IsAsn : Value → Type 0
IsAsn v = (n : ℕ) × (as_int v ≡ some (pos n)) × (1 ≤ n) × (n ≤ 4294967295)

-- The ASN rule accepts exactly the integers from 1 to 4294967295; of the bools it takes `true`.
pub validate_asn_iff : (v : Value) → (validate_asn v ≡ []) ↔ IsAsn v
unfolding validate_asn in_range
validate_asn_iff v = go (as_int v)
  where
    go :
        (o : Option ℤ)
        → (flag (not (in_range 1 4294967295 o)) (bad_asn v) ≡ [])
          ↔ ((n : ℕ) × (o ≡ some (pos n)) × (1 ≤ n) × (n ≤ 4294967295))
    go none = (λ h. cc, λ h. let (n, e, lo, hi) = h in cc)
    go (some (pos n)) = (
      λ h. let e = flag-nil _ _ h in (n, refl, ground arith, ground arith),
      λ h. let (m, e, lo, hi) = h in ground arith,
    )
    go (some (negsuc n)) =
        (λ h. let e = flag-nil _ _ h in ground arith, λ h. let (n, e, lo, hi) = h in cc)

-- With natural timers, the timer rule passes exactly if the hold time is 0 or at least three
-- times the keepalive.
pub validate_timers_iff :
    (keepalive hold : ℕ)
    → (validate_timers (int (pos keepalive)) (int (pos hold)) ≡ ok [])
      ↔ ((hold ≡ 0) ⊎ (keepalive * 3 ≤ hold))
unfolding validate_timers ◌>>=◌ times less value_eq as_int
validate_timers_iff keepalive hold = (forth, back)
  where
    outcome : ℕ → ℕ → Py (List Issue)
    outcome k h =
        if h + 0 == 0
        then ok []
        else ok (flag (ltb (h + 0) (3 * k + 0)) (short_hold_time (int (pos h)) (int (pos k))))

    forth : outcome keepalive hold ≡ ok [] → (hold ≡ 0) ⊎ (keepalive * 3 ≤ hold)
    forth h = ground arith

    back : (hold ≡ 0) ⊎ (keepalive * 3 ≤ hold) → outcome keepalive hold ≡ ok []
    back h = ground arith

-- a neighbor address that the rule has nothing against
abbrev pub IsNeighborIp : Value → Type 0
IsNeighborIp v =
    (a : ℕ) × (ipv4_address v ≡ some a)
    × (is_loopback a ≡ false)
    × (is_reserved a ≡ false)
    × ((a == 0) ≡ false)

pub validate_neighbor_ip_sound : (v : Value) → validate_neighbor_ip v ≡ [] → IsNeighborIp v
unfolding validate_neighbor_ip neighbor_issues
validate_neighbor_ip_sound v = go (ipv4_address v)
  where
    go :
        (o : Option ℕ)
        → neighbor_issues v o ≡ []
        → (a : ℕ) × (o ≡ some a)
          × (is_loopback a ≡ false)
          × (is_reserved a ≡ false)
          × ((a == 0) ≡ false)
    go none h = cc
    go (some a) h =
        let (l, rest) = append-nil-both _ _ h in
        let (r, z) = append-nil-both _ _ rest in
        (a, refl, flag-nil _ _ l, flag-nil _ _ r, flag-nil _ _ z)
