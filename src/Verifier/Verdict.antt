-- ===== src/Verifier/Verdict.antt =====
-- core/state_verifier.py: when the verification of BGP neighbors passes.
use netdeploy.Base.{
  String, ◌≡◌, refl, sym, ap, ◌∙◌, ◌↔◌, ◌⊎◌, inl, inr, Bool, true, false, ◌&&◌, ◌||◌, Bool-cases,
  List, [], ◌∷◌, All, any, all, keep, str_eq, if◌then◌else◌,
}
use mathlib.Core.Path.{subst}
use netdeploy.Text.{Text, codes, contains_text, splitlines}
use netdeploy.Value.{Value, null, bool, int, str, arr, obj, nil}
use netdeploy.Py.{ok, iterate, need_text, field_or, Ensures, Ensures-ok, Ensures-bind, Ensures-get}
use netdeploy.Verifier.{
  VerificationResult, add_check, no_checks, neighbor_check, check_neighbors, bgp_checks,
}
use netdeploy.Verifier.Parse.{says_established, parse_bgp_neighbor_state}

-- The address of an expected neighbor.
abbrev pub text_of : Value → Text
text_of (str t) = t
text_of _ = []

abbrev pub address : Value → Text
address n = text_of (field_or n "neighbor_ip" (str []))

need_text-text_of : (v : Value) {t : Text} → need_text v ≡ ok t → text_of v ≡ t
unfolding need_text
need_text-text_of (str t) e = cc
need_text-text_of null e = cc
need_text-text_of (bool b) e = cc
need_text-text_of (int n) e = cc
need_text-text_of (arr vs) e = cc
need_text-text_of (obj fs) e = cc

-- the verdict of a loop that began with another one
HasVerdict : Bool → VerificationResult → Type 0
HasVerdict verdict r = r.passed ≡ verdict

and_true : (p : Bool) → p ≡ (p && true)
and_true true = refl
and_true false = refl

gated : (p e a : Bool) → ((if e then p else false) && a) ≡ (p && (e && a))
gated true true a = refl
gated true false a = refl
gated false true a = refl
gated false false a = refl

module _ (output : Text) (device_type : String) (cmd : Text) where
  abbrev is_established : Value → Bool
  is_established n = parse_bgp_neighbor_state output (address n) device_type

  check_neighbors-HasVerdict :
      (ns : List Value) (r : VerificationResult)
      → Ensures
          (HasVerdict (r.passed && all is_established ns))
          (check_neighbors output device_type cmd ns r)
  unfolding check_neighbors HasVerdict add_check neighbor_check
  check_neighbors-HasVerdict [] r = Ensures-ok r (and_true r.passed)
  check_neighbors-HasVerdict (n ∷ ns) r = Ensures-get n _ _ _ (
      Ensures-bind _ _ (record { at = λ ip e. need_text-text_of _ e })
        λ ip e.
          let established = parse_bgp_neighbor_state output ip device_type in
          let verdict =
            gated r.passed established (all is_established ns)
            ∙ ap
                (λ t.
                  r.passed
                  && (parse_bgp_neighbor_state output t device_type && all is_established ns))
                (sym e) in
          subst
            (λ v. Ensures (HasVerdict v) (
              check_neighbors output device_type cmd ns
                (add_check (neighbor_check output ip device_type cmd) r)))
            verdict
            (check_neighbors-HasVerdict ns
              (add_check (neighbor_check output ip device_type cmd) r)))

-- A word of the line for an established session.
abbrev Established : Text → Type 0
Established line =
    (contains_text (codes "Established") line ≡ true)
    ⊎ ((contains_text (codes "established") line ≡ true)
        ⊎ (contains_text (codes "ESTABLISHED") line ≡ true))

abbrev Some : (Text → Type 0) → List Text → Type 0
Some P [] = ⊥
Some P (t ∷ ts) = P t ⊎ Some P ts

-- A line of the output has the address and a word for an established session; for JunOS, it is
-- enough that the output has the address at all and "State: Established" somewhere.
abbrev pub Reported : Text → String → Value → Type 0
Reported output device_type n =
    (contains_text (address n) output ≡ true)
    × (Some (λ line. (contains_text (address n) line ≡ true) × Established line) (splitlines output)
        ⊎ ((str_eq device_type "junos" ≡ true)
            × (contains_text (codes "State: Established") output ≡ true)))

or_iff : (a b : Bool) → (a || b ≡ true) ↔ ((a ≡ true) ⊎ (b ≡ true))
or_iff true b = (λ h. inl refl, λ h. refl)
or_iff false b = (λ h. inr h, λ h. elim h [ inl e ↦ cc | inr e ↦ e ])

and_iff : (a b : Bool) → (a && b ≡ true) ↔ ((a ≡ true) × (b ≡ true))
and_iff true b = (λ h. (refl, h), λ h. h.1)
and_iff false b = (λ h. cc, λ h. h.0)

or-map : {A B C D : Type 0} → (A ↔ C) → (B ↔ D) → (A ⊎ B) ↔ (C ⊎ D)
or-map f g = (
  λ h. elim h [ inl a ↦ inl (f.0 a) | inr b ↦ inr (g.0 b) ],
  λ h. elim h [ inl c ↦ inl (f.1 c) | inr d ↦ inr (g.1 d) ],
)

and-map : {A B C D : Type 0} → (A ↔ C) → (B ↔ D) → (A × B) ↔ (C × D)
and-map f g = (λ h. (f.0 h.0, g.0 h.1), λ h. (f.1 h.0, g.1 h.1))

trans : {A B C : Type 0} → (A ↔ B) → (B ↔ C) → A ↔ C
trans f g = (λ a. g.0 (f.0 a), λ c. f.1 (g.1 c))

same : {A : Type 0} → A ↔ A
same = (λ a. a, λ a. a)

says_established_iff : (line : Text) → (says_established line ≡ true) ↔ Established line
unfolding says_established
says_established_iff line = trans (or_iff (contains_text (codes "Established") line) _) (
    or-map same (
      trans (or_iff (contains_text (codes "established") line) _)
        (or-map same (trans (or_iff (contains_text (codes "ESTABLISHED") line) false) never))))
  where
    never : {A : Type 0} → (A ⊎ (false ≡ true)) ↔ A
    never = (λ h. elim h [ inl a ↦ a | inr e ↦ cc ], λ a. inl a)

-- Some kept line passes exactly if some line is kept and passes.
kept_iff :
    (f g : Text → Bool) (P : Text → Type 0) (ts : List Text)
    → ((t : Text) → (f t ≡ true) ↔ P t)
    → (any f (keep g ts) ≡ true) ↔ Some (λ t. (g t ≡ true) × P t) ts
kept_iff f g P [] each = (λ h. cc, λ h. elim h [ ])
kept_iff f g P (t ∷ ts) each = elim (Bool-cases (g t)) [
  | inl e ↦ rw e (
      trans (or_iff (f t) (any f (keep g ts)))
        (or-map (trans (each t) (λ p. (refl, p), λ h. h.1)) (kept_iff f g P ts each)))
  | inr e ↦
      rw e
        (trans (kept_iff f g P ts each) (λ h. inr h, λ h. elim h [ inl q ↦ cc | inr rest ↦ rest ]))
]

if_iff : (c e : Bool) → ((if c then e else false) ≡ true) ↔ ((c ≡ true) × (e ≡ true))
if_iff true e = (λ h. (refl, h), λ h. h.1)
if_iff false e = (λ h. cc, λ h. h.0)

is_established_iff :
    (output : Text) (device_type : String) (n : Value)
    → (parse_bgp_neighbor_state output (address n) device_type ≡ true)
      ↔ Reported output device_type n
unfolding parse_bgp_neighbor_state
is_established_iff output device_type n = trans (if_iff (contains_text (address n) output) _) (
    and-map same (
      trans (or_iff (any says_established _) _) (
        or-map
          (kept_iff says_established (contains_text (address n)) Established (splitlines output)
            says_established_iff)
          (and_iff (str_eq device_type "junos") _))))

all_iff :
    (f : Value → Bool) (P : Value → Type 0) (ns : List Value)
    → ((n : Value) → (f n ≡ true) ↔ P n)
    → (all f ns ≡ true) ↔ All P ns
all_iff f P [] each = (λ h. tt, λ h. refl)
all_iff f P (n ∷ ns) each =
    trans (and_iff (f n) (all f ns)) (and-map (each n) (all_iff f P ns each))

FromNeighbors : Value → (Value → Bool) → VerificationResult → Type 0
FromNeighbors bgp established r =
    (ns : List Value) × (iterate (field_or bgp "neighbors" (arr nil)) ≡ ok ns)
    × (r.passed ≡ all established ns)

bgp_checks-FromNeighbors :
    (bgp : Value) (device_type : String) (cmd output : Text)
    → Ensures
        (FromNeighbors bgp (is_established output device_type cmd))
        (bgp_checks bgp device_type cmd (ok output))
unfolding bgp_checks FromNeighbors HasVerdict
bgp_checks-FromNeighbors bgp device_type cmd output = Ensures-get bgp _ _ _ (
    Ensures-bind _ _ (record { at = λ ns e. e })
      λ ns e. record {
        at =
            λ r h. (ns, e, (check_neighbors-HasVerdict output device_type cmd ns no_checks).at r h);
      })

-- If the show command answered and the check raises nothing, then the verification of a BGP
-- section passes exactly if each expected neighbor is reported: the output has its address, and
-- some line with the address as a part has one of the words Established, established and
-- ESTABLISHED; for JunOS, the text "State: Established" anywhere in the output will do instead.
pub bgp_checks-Reported :
    (bgp : Value) (device_type : String) (cmd output : Text) {r : VerificationResult}
    → bgp_checks bgp device_type cmd (ok output) ≡ ok r
    → (ns : List Value) × (iterate (field_or bgp "neighbors" (arr nil)) ≡ ok ns)
      × ((r.passed ≡ true) ↔ All (Reported output device_type) ns)
unfolding FromNeighbors
bgp_checks-Reported bgp device_type cmd output h =
    let (ns, e, verdict) = (bgp_checks-FromNeighbors bgp device_type cmd output).at _ h in
    let reported = all_iff _ _ ns (is_established_iff output device_type) in
    (ns, e, (λ p. reported.0 (sym verdict ∙ p), λ a. verdict ∙ reported.1 a))
