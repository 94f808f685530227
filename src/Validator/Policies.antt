-- ===== src/Validator/Policies.antt =====
-- core/validator.py: route policies that are found valid do not contradict each other.
use netdeploy.Base.{
  ◌≡◌, refl, sym, ap, ◌∙◌, true, false, not, ◌&&◌, List, [], ◌∷◌, ◌++◌, Option, some, none, All,
  String, Bool-cases, inl, inr, arith,
}
use mathlib.Core.Path.{subst}
use netdeploy.Text.{Text, text_eq_refl, text_eq_iff}
use netdeploy.Value.{Value, null, bool, int, str, arr, obj, nil, Fields, lookup, truthy, value_eq}
use netdeploy.Py.{
  ok, ◌>>=◌, iterate, field_or, need_hash, Ensures, Ensures-ok, Ensures-bind, Ensures-any,
  Ensures-get,
}
use netdeploy.Validator.{
  validate, validate_object, ValidationResult, last_action, conflict, policy_step, policy_conflicts,
  check_policy_conflicts,
}
use netdeploy.Validator.Issues.{Issue, policy_conflict}
use netdeploy.Validator.Neighbors.{is_empty-nil, IfValid}
use netdeploy.Validator.Ranges.{append-nil-both, flag-nil}

abbrev pub prefix_of : Value → Value
prefix_of policy = field_or policy "prefix" null

abbrev pub action_of : Value → Value
action_of policy = field_or policy "action" null

-- The policy has the prefix, and its action counts.
abbrev Concerns : Text → Value → Type 0
Concerns p policy = (prefix_of policy ≡ str p) × (truthy (action_of policy) ≡ true)

text-from : (v : Value) (p : Text) → value_eq v (str p) ≡ true → v ≡ str p
unfolding value_eq
text-from null p h = cc
text-from (bool true) p h = cc
text-from (bool false) p h = cc
text-from (int n) p h = cc
text-from (str t) p h = ap str ((text_eq_iff t p).0 h)
text-from (arr vs) p h = cc
text-from (obj fs) p h = cc

text-to : (p : Text) (v : Value) → value_eq (str p) v ≡ true → v ≡ str p
unfolding value_eq
text-to p null h = cc
text-to p (bool b) h = cc
text-to p (int n) h = cc
text-to p (str t) h = ap str (sym ((text_eq_iff p t).0 h))
text-to p (arr vs) h = cc
text-to p (obj fs) h = cc

text-same : (p : Text) → value_eq (str p) (str p) ≡ true
unfolding value_eq
text-same p = text_eq_refl p

-- What is kept of the dict if nothing is reported: the prefix still has the action.
Keeps : Text → Text → Value → Value → List Issue × List (Value × Value) → Type 0
Keeps p a v w r =
    r.0 ≡ [] → (last_action (str p) r.1 ≡ some (str a)) × (v ≡ str p → truthy w ≡ true → w ≡ str a)

module _ (p a : Text) (filled : truthy (str p) ≡ true) where
  agrees : (w : Value) (o : Option Value) → o ≡ some (str a) → conflict (str p) w o ≡ [] → w ≡ str a
  unfolding conflict
  agrees w none e clean = cc
  agrees w (some old) e clean =
      let same : not (value_eq old w) ≡ false = flag-nil _ (policy_conflict (str p) old w) clean in
      let is_a : old ≡ str a = cc in
      text-to a w (ground (arith, subst (λ t. not (value_eq t w) ≡ false) is_a same))

  policy_step-Keeps :
      (seen : List (Value × Value)) (v w : Value)
      → last_action (str p) seen ≡ some (str a)
      → Ensures (Keeps p a v w) (policy_step seen v w)
  unfolding policy_step Keeps last_action
  policy_step-Keeps seen v w h = elim (Bool-cases (truthy v && truthy w)) [
    | inl e ↦ rw e (
        Ensures-any (need_hash v) _ λ _. Ensures-ok _ λ clean.
          elim (Bool-cases (value_eq v (str p))) [
            | inl same ↦
                let is_p = text-from v p same in
                let is_a =
                  agrees w (last_action v seen) (ap (λ k. last_action k seen) is_p ∙ h)
                    (subst (λ k. conflict k w (last_action v seen) ≡ []) is_p clean) in
                (rw same (ap some is_a), λ _ _. is_a)
            | inr other ↦ (
              rw other h,
              λ is_p _.
                  let yes = subst (λ k. value_eq k (str p) ≡ true) (sym is_p) (text-same p) in cc,
            )
          ])
    | inr e ↦ rw e (
        Ensures-ok _ (λ clean. (
          h,
          λ is_p t.
              let filled_v = subst (λ k. truthy k ≡ true) (sym is_p) filled in
              let counts : truthy v && truthy w ≡ true = rw filled_v (rw t refl) in cc,
        )))
  ]

  -- If nothing is reported, the later policies for the prefix have the action.
  Agreed : List Value → List Issue → Type 0
  Agreed policies issues = issues ≡ [] → All (λ y. Concerns p y → action_of y ≡ str a) policies

  rest-Agreed :
      (y : Value) (ys : List Value) (r : List Issue × List (Value × Value))
      → Keeps p a (prefix_of y) (action_of y) r
      → ((seen : List (Value × Value))
          → last_action (str p) seen ≡ some (str a)
          → Ensures (Agreed ys) (policy_conflicts seen ys))
      → Ensures (Agreed (y ∷ ys)) (policy_conflicts r.1 ys >>= λ rest. ok (r.0 ++ rest))
  unfolding Agreed Keeps
  rest-Agreed y ys ([], seen) keeps later =
      let (has, is) = keeps refl in
      Ensures-bind _ _ (later seen has) λ rest h. Ensures-ok _ (λ clean. (λ c. is c.0 c.1, h clean))
  rest-Agreed y ys (i ∷ is, seen) keeps later = Ensures-any _ _ λ rest. Ensures-ok _ (λ clean. cc)

  policy_conflicts-Agreed :
      (seen : List (Value × Value)) (policies : List Value)
      → last_action (str p) seen ≡ some (str a)
      → Ensures (Agreed policies) (policy_conflicts seen policies)
  unfolding policy_conflicts Agreed
  policy_conflicts-Agreed seen [] h = Ensures-ok _ (λ clean. tt)
  policy_conflicts-Agreed seen (y ∷ ys) h = Ensures-get y _ _ _ (
      Ensures-get y _ _ _ (
        Ensures-bind _ _ (policy_step-Keeps seen (prefix_of y) (action_of y) h)
          λ r keeps. rest-Agreed y ys r keeps (λ seen₁ k. policy_conflicts-Agreed seen₁ ys k)))

  policy_step-last_action :
      (seen : List (Value × Value)) (v w : Value)
      → v ≡ str p
      → w ≡ str a
      → truthy (str a) ≡ true
      → Ensures (λ r. last_action (str p) r.1 ≡ some (str a)) (policy_step seen v w)
  unfolding policy_step last_action
  policy_step-last_action seen v w is_p is_a counts = rw is_p (
      rw is_a (
        rw filled (
          rw counts (Ensures-any (need_hash (str p)) _ λ _. Ensures-ok _ (rw (text-same p) refl)))))

  -- Of policies without conflicts, each that follows one for the prefix agrees with it.
  policy_conflicts-pair :
      (seen : List (Value × Value)) (before policies : List Value) (x : Value)
      → prefix_of x ≡ str p
      → action_of x ≡ str a
      → truthy (str a) ≡ true
      → Ensures (Agreed policies) (policy_conflicts seen (before ++ (x ∷ policies)))
  unfolding policy_conflicts Agreed
  policy_conflicts-pair seen [] policies x is_p is_a counts = Ensures-get x _ _ _ (
      Ensures-get x _ _ _ (
        Ensures-bind _ _ (policy_step-last_action seen (prefix_of x) (action_of x) is_p is_a counts)
          λ r has.
            Ensures-bind _ _ (policy_conflicts-Agreed r.1 policies has)
              λ rest h. Ensures-ok _ (λ clean. h (append-nil-both r.0 rest clean).1)))
  policy_conflicts-pair seen (b ∷ bs) policies x is_p is_a counts = Ensures-get b _ _ _ (
      Ensures-get b _ _ _ (
        Ensures-any _ _ λ r.
          Ensures-bind _ _ (policy_conflicts-pair r.1 bs policies x is_p is_a counts)
            λ rest h. Ensures-ok _ (λ clean. h (append-nil-both r.0 rest clean).1)))

All-middle :
    (P : Value → Type 0) (xs : List Value) (y : Value) (ys : List Value)
    → All P (xs ++ (y ∷ ys))
    → P y
All-middle P [] y ys h = h.0
All-middle P (x ∷ xs) y ys h = All-middle P xs y ys h.1

module _ (before policies : List Value) (x : Value) (p a : Text)
    (filled : truthy (str p) ≡ true) where
  check_policy_conflicts-Agreed :
      (config : Fields) (bgp : Value)
      → lookup "bgp" config ≡ some bgp
      → iterate (field_or bgp "route_policies" (arr nil)) ≡ ok (before ++ (x ∷ policies))
      → prefix_of x ≡ str p
      → action_of x ≡ str a
      → truthy (str a) ≡ true
      → Ensures (Agreed p a filled policies) (check_policy_conflicts (obj config))
  unfolding check_policy_conflicts field_or ◌>>=◌
  check_policy_conflicts-Agreed config bgp e listed is_p is_a counts =
      Ensures-get (obj config) _ _ _ (
        rw e (
          Ensures-get bgp _ _ _
            (rw listed (policy_conflicts-pair p a filled [] before policies x is_p is_a counts))))

  validate_object-Agreed :
      (config : Fields) (device_type : Option String) (bgp : Value)
      → lookup "bgp" config ≡ some bgp
      → iterate (field_or bgp "route_policies" (arr nil)) ≡ ok (before ++ (x ∷ policies))
      → prefix_of x ≡ str p
      → action_of x ≡ str a
      → truthy (str a) ≡ true
      → Ensures
          (IfValid (All (λ y. Concerns p y → action_of y ≡ str a) policies))
          (validate_object config device_type)
  unfolding validate_object IfValid Agreed
  validate_object-Agreed config device_type bgp e listed is_p is_a counts = Ensures-any _ _ λ b.
      Ensures-any _ _ λ o.
        Ensures-bind _ _ (check_policy_conflicts-Agreed config bgp e listed is_p is_a counts) λ c h.
          Ensures-any _ _ λ cross. Ensures-any _ _ λ cidrs. Ensures-any _ _ λ d.
            Ensures-ok _ λ valid.
              let (_, rest) = append-nil-both b.0 _ (is_empty-nil _ valid) in
              let (_, rest₁) = append-nil-both o.0 _ rest in h (append-nil-both c cidrs rest₁).0

-- If a configuration with a BGP section is found valid, then of two route policies for the same
-- prefix the later one has the action of the earlier one. Prefixes and the earlier action are texts
-- that are not empty; a policy whose action is missing or empty does not count.
pub validate-one_action :
    (config : Fields) (device_type : Option String) (bgp : Value) {r : ValidationResult}
    (before between after : List Value) (x y : Value) (p a : Text)
    → lookup "bgp" config ≡ some bgp
    → validate (obj config) device_type ≡ ok r
    → r.valid ≡ true
    → iterate (field_or bgp "route_policies" (arr nil))
      ≡ ok (before ++ (x ∷ (between ++ (y ∷ after))))
    → prefix_of x ≡ str p
    → prefix_of y ≡ str p
    → action_of x ≡ str a
    → truthy (str p) ≡ true
    → truthy (str a) ≡ true
    → truthy (action_of y) ≡ true
    → action_of y ≡ str a
unfolding validate IfValid
validate-one_action config device_type bgp before between after x y p a e h valid listed is_p same_p
      is_a filled counts y_counts =
    let agreed =
      (validate_object-Agreed before (between ++ (y ∷ after)) x p a filled config device_type bgp e
          listed is_p is_a counts).at
        _ h valid in
    All-middle _ between y after agreed (same_p, y_counts)
