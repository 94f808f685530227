-- ===== src/Validator/Neighbors.antt =====
-- core/validator.py: what a BGP section satisfies that is found without errors.
use netdeploy.Base.{◌≡◌, refl, true, false, List, [], ◌∷◌, Option, some, String, if◌then◌else◌}
use mathlib.Core.Path.{subst}
use netdeploy.Value.{Value, null, str, arr, obj, nil, Fields, lookup}
use netdeploy.Py.{
  ok, iterate, field_or, Ensures, Ensures-ok, Ensures-bind, Ensures-any, Ensures-get,
}
use netdeploy.Validator.{validate, validate_object, validate_section, is_empty, ValidationResult}
use netdeploy.Validator.Issues.{Issue}
use netdeploy.Validator.Rules.{validate_asn}
use netdeploy.Validator.Ranges.{
  append-nil-both, flag-nil, IsAsn, IsNeighborIp, validate_asn_iff, validate_neighbor_ip_sound,
}
use netdeploy.Validator.Sections.{
  Findings, seen_before, given, neighbor_findings, neighbors_findings, validate_bgp,
}

abbrev pub neighbor_ip : Value → Value
neighbor_ip n = field_or n "neighbor_ip" (str [])

abbrev pub remote_asn : Value → Value
remote_asn n = field_or n "remote_asn" null

-- Each neighbor has an address that the rule accepts, an ASN in range if it names one, and an
-- address that equals none that was seen before.
abbrev pub AreSound : List Value → List Value → Type 0
AreSound seen [] = Unit
AreSound seen (n ∷ ns) =
    IsNeighborIp (neighbor_ip n)
    × (given (remote_asn n) ≡ true → IsAsn (remote_asn n))
    × (seen_before (neighbor_ip n) seen ≡ false)
    × AreSound (neighbor_ip n ∷ seen) ns

-- What is shown of findings without errors.
IfClean : Type 0 → Findings → Type 0
IfClean C f = f.0 ≡ [] → C

given-nil :
    (asn : Value) → (if given asn then validate_asn asn else []) ≡ [] → given asn ≡ true → IsAsn asn
given-nil asn h e =
    (validate_asn_iff asn).0 (subst (λ b. (if b then validate_asn asn else []) ≡ []) e h)

neighbor_findings_sound :
    (loc : Value) (seen : List Value) (n ip asn : Value)
    → Ensures
        (IfClean (IsNeighborIp ip × (given asn ≡ true → IsAsn asn) × (seen_before ip seen ≡ false)))
        (neighbor_findings loc seen n ip asn)
unfolding neighbor_findings IfClean
neighbor_findings_sound loc seen n ip asn = Ensures-any _ _ λ k. Ensures-any _ _ λ t.
    Ensures-any _ _ λ timers. Ensures-any _ _ λ u. Ensures-ok _ λ clean.
      let (safe, rest) = append-nil-both _ _ clean in
      let (asns, rest₁) = append-nil-both _ _ rest in
      let (_, new) = append-nil-both timers _ rest₁ in
      (validate_neighbor_ip_sound ip safe, given-nil asn asns, flag-nil _ _ new)

neighbors_findings_sound :
    (loc : Value) (seen ns : List Value)
    → Ensures (IfClean (AreSound seen ns)) (neighbors_findings loc seen ns)
unfolding neighbors_findings IfClean
neighbors_findings_sound loc seen [] = Ensures-ok _ (λ clean. tt)
neighbors_findings_sound loc seen (n ∷ ns) = Ensures-get n _ _ _ (
    Ensures-get n _ _ _ (
      Ensures-bind _ _ (neighbor_findings_sound loc seen n (neighbor_ip n) (remote_asn n)) λ here h.
        Ensures-bind _ _ (neighbors_findings_sound loc (neighbor_ip n ∷ seen) ns) λ rest hs.
          Ensures-ok _ λ clean.
            let (a, b) = append-nil-both here.0 rest.0 clean in
            let (safe, asn, new) = h a in (safe, asn, new, hs b)))

-- The neighbors of a section are a list, and they are sound.
abbrev pub IsBgpSound : Value → Type 0
IsBgpSound bgp =
    (ns : List Value) × (iterate (field_or bgp "neighbors" (arr nil)) ≡ ok ns) × AreSound [] ns

validate_bgp_sound : (bgp : Value) → Ensures (IfClean (IsBgpSound bgp)) (validate_bgp bgp)
unfolding validate_bgp IfClean
validate_bgp_sound bgp = Ensures-get bgp _ _ _ (
    Ensures-get bgp _ _ _ (
      Ensures-get bgp _ _ _ (
        Ensures-bind _ _ (record { at = λ ns e. e })
          λ ns e.
            Ensures-bind _ _ (neighbors_findings_sound _ [] ns)
              λ rest hs. Ensures-ok _ (λ clean. (ns, e, hs (append-nil-both _ rest.0 clean).1)))))

pub is_empty-nil : (is : List Issue) → is_empty is ≡ true → is ≡ []
unfolding is_empty
is_empty-nil [] v = refl
is_empty-nil (i ∷ is) v = cc

unfoldable pub IfValid : Type 0 → ValidationResult → Type 0
IfValid C r = r.valid ≡ true → C

validate_object_sound :
    (config : Fields) (device_type : Option String) (bgp : Value)
    → lookup "bgp" config ≡ some bgp
    → Ensures (IfValid (IsBgpSound bgp)) (validate_object config device_type)
unfolding validate_object IfValid IfClean validate_section
validate_object_sound config device_type bgp e = rw e (
    Ensures-bind _ _ (validate_bgp_sound bgp) λ b h. Ensures-any _ _ λ o. Ensures-any _ _ λ p.
      Ensures-any _ _ λ x. Ensures-any _ _ λ c.
        Ensures-any _ _
          λ d. Ensures-ok _ (λ valid. h (append-nil-both b.0 _ (is_empty-nil _ valid)).0))

-- If a configuration with a BGP section is found valid, then each of its neighbors has an IPv4
-- address that is not loopback, not reserved and not 0.0.0.0, names no remote ASN or one from 1
-- to 4294967295, and has an address that differs from those of all earlier neighbors.
pub validate-BgpSound :
    (config : Fields) (device_type : Option String) (bgp : Value) {r : ValidationResult}
    → lookup "bgp" config ≡ some bgp
    → validate (obj config) device_type ≡ ok r
    → r.valid ≡ true
    → IsBgpSound bgp
unfolding validate IfValid
validate-BgpSound config device_type bgp e h valid =
    (validate_object_sound config device_type bgp e).at _ h valid
