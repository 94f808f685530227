-- ===== src/Orchestrator/Leaves.antt =====
-- core/orchestrator.py: what `deploy` leaves in the rows of a batch, under every strategy.
use netdeploy.Base.{
  ℕ, zero, suc, String, ◌≡◌, refl, sym, ◌⊎◌, inl, inr, Bool, true, false, List, [], ◌∷◌, map,
  Option, none, some, All, All-map, All-and, All-over, any, ◌==◌, ==_iff, Bool-cases, if◌then◌else◌,
}
use mathlib.Core.Path.{subst}
use netdeploy.Text.{Text}
use netdeploy.Py.{Py, ok, raised}
use netdeploy.Db.{Deployment, find_in_batch}
use netdeploy.Db.Rows.{Key, keys, Distinct}
use netdeploy.Proc.{State, Proc, Net, run}
use netdeploy.Proc.Logic.{Wp, run-Wp}
use netdeploy.Proc.Stays.{Stays}
use netdeploy.Gather.{gather}
use netdeploy.Gather.Logic.{Among, gather-Tasks, gather-Quiet}
use netdeploy.Snapshots.{Env}
use netdeploy.Orchestrator.{
  BatchResult, deploy, deploy_rolling, deploy_atomic, deploy_canary, after_atomic, after_rest,
  after_canary, failures,
}
use netdeploy.Orchestrator.Device.{DeviceResult, deploy_to_device}
use netdeploy.Orchestrator.Rows.{HasKeys, row}
use netdeploy.Orchestrator.Parallel.{HasRow, Calm-deploy, Among-map}
use netdeploy.Orchestrator.Settled.{
  Settled, Keeps, Keeps-deploy, Keeps-deploy_rolling, Keeps-atomic_verdict, Keeps-canary_stage,
}

-- No device is listed twice.
abbrev pub Unique : List ℕ → Type 0
Unique [] = Unit
Unique (id ∷ ids) = (any (λ i. i == id) ids ≡ false) × Unique ids

-- A device that is not listed differs from all.
pub none_is :
    (dev : ℕ) (ids : List ℕ) → any (λ i. i == dev) ids ≡ false → All (λ i. (i == dev) ≡ false) ids
none_is dev [] h = tt
none_is dev (id ∷ ids) h = elim (Bool-cases (id == dev)) [
  | inl e ↦ cc
  | inr e ↦ (e, none_is dev ids cc)
]

-- A device is listed once or never.
pub once_or_never :
    (dev : ℕ) (ids : List ℕ)
    → Unique ids
    → All (λ i. (i == dev) ≡ false) ids
      ⊎ ((n : ℕ) × Among (λ i. i ≡ dev) (λ i. (i == dev) ≡ false) n ids)
once_or_never dev [] u = inl tt
once_or_never dev (id ∷ ids) u = elim (Bool-cases (id == dev)) [
  | inl e ↦
      let same : id ≡ dev = (==_iff id dev).0 e in
      inr (0, (same, none_is dev ids (subst (λ d. any (λ i. i == d) ids ≡ false) same u.0)))
  | inr e ↦ elim (once_or_never dev ids u.1) [
    | inl never ↦ inl (e, never)
    | inr (n, once) ↦ inr (suc n, (e, once))
  ]
]

pub Among-All :
    {A : Type 0} (P O R : A → Type 0) (n : ℕ) (xs : List A)
    → All R xs
    → Among P O n xs
    → Among (λ x. P x × R x) (λ x. O x × R x) n xs
Among-All P O R zero [] h a = a
Among-All P O R (suc n) [] h a = a
Among-All P O R zero (x ∷ xs) h a = ((a.0, h.0), All-and _ _ xs a.1 h.1)
Among-All P O R (suc n) (x ∷ xs) h a = ((a.0, h.0), Among-All P O R n xs h.1 a.1)

-- A property of the state where a schedule lets all tasks end.
abbrev pub IfEnded : {A : Type 0} → (State → Type 0) → Option (A × State) → Type 0
IfEnded P none = Unit
IfEnded P (some (a, s)) = P s

module _ (env : Env) (net : Net) (version : String) (b : ℕ) (user : Text) (ks : List Key)
    (distinct : Distinct ks) (dev : ℕ) where
  -- The keys of the rows are as they were, and the row of the device waits or is over.
  abbrev Good : State → Type 0
  Good s = (keys s.db ≡ ks) × Settled (find_in_batch b dev s.db)

  abbrev one : ℕ → Proc DeviceResult
  one id = deploy_to_device env id version user (some b)

  run-Good :
      {A : Type 0} (p : Proc A) (s : State) → Keeps b ks dev p → Good s → Good (run net p s).1
  unfolding Stays
  run-Good p s stays (i, settled) =
      run-Wp (HasKeys b ks) (row b ks dev) net p (λ o r. Settled r) s i (stays _ settled)

  -- the deployment of the device itself, from a settled row
  Keeps-own :
      (id : ℕ) (r : Option Deployment)
      → Settled r
      → HasRow b ks id
      → Wp (HasKeys b ks) (row b ks dev) (one id) (λ o. Settled) r
  unfolding Stays
  Keeps-own id r settled has = Keeps-deploy b ks dev env net version user distinct id has r settled

  gather-Good :
      (schedule ids : List ℕ) (s : State)
      → Unique ids
      → All (HasRow b ks) ids
      → Good s
      → IfEnded Good (gather net schedule (map one ids) s)
  gather-Good schedule ids s u has (i, settled) = go (gather net schedule (map one ids) s) refl
    where
      go :
          (o : Option (List (Py DeviceResult) × State))
          → gather net schedule (map one ids) s ≡ o
          → IfEnded Good o
      go none e = tt
      go (some (os, s')) e = elim (once_or_never dev ids u) [
        | inl never ↦
            let quiet = All-over _ one ids (
              All-map ids
                (λ id (other, h). Calm-deploy b ks dev env id version user distinct h other)
                (All-and _ _ ids never has)) in
            let (k, same) =
              gather-Quiet (HasKeys b ks) (row b ks dev) (λ o r. Unit {0}) net schedule
                (map one ids) s i quiet e in
            (k, subst Settled (sym same) settled)
        | inr (n, once) ↦
            let tasks =
              Among-map _ _ _ _ one n ids (λ id (same, h). Keeps-own id _ settled h)
                (λ id (other, h). Calm-deploy b ks dev env id version user distinct h other)
                (Among-All _ _ (HasRow b ks) n ids has once) in
            let (k, (o, found, done)) =
              gather-Tasks (HasKeys b ks) (row b ks dev) (λ o. Settled) net schedule n (map one ids)
                s i tasks e in
            (k, done)
      ]

  after_atomic-Good :
      (ids : List ℕ) (o : Option (List (Py DeviceResult) × State))
      → IfEnded Good o
      → IfEnded Good (after_atomic env net version b user ids o)
  unfolding after_atomic
  after_atomic-Good ids none h = tt
  after_atomic-Good ids (some (os, s)) h =
      run-Good _ s
        (Keeps-atomic_verdict b ks dev env net version user distinct ids (failures ids os)) h

  after_rest-Good :
      (ids : List ℕ) (o : Option (List (Py DeviceResult) × State))
      → IfEnded Good o
      → IfEnded Good (after_rest env net version b user ids o)
  unfolding after_rest
  after_rest-Good ids none h = tt
  after_rest-Good ids (some (os, s)) h = h

  after_canary-Good :
      (schedule : List ℕ) (id : ℕ) (rest : List ℕ) (first : Py (Option BatchResult) × State)
      → Unique rest
      → All (HasRow b ks) rest
      → Good first.1
      → IfEnded Good (after_canary env net version b user schedule id rest first)
  unfolding after_canary
  after_canary-Good schedule id rest (raised e, s) u has good = good
  after_canary-Good schedule id rest (ok (some r), s) u has good = good
  after_canary-Good schedule id rest (ok none, s) u has good =
      after_rest-Good (id ∷ rest) _ (gather-Good schedule rest s u has good)

  deploy_canary-Good :
      (schedule ids : List ℕ) (s : State)
      → Unique ids
      → All (HasRow b ks) ids
      → Good s
      → IfEnded Good (deploy_canary env net version b user schedule ids s)
  unfolding deploy_canary
  deploy_canary-Good schedule [] s u has good = good
  deploy_canary-Good schedule (id ∷ rest) s u has good =
      after_canary-Good schedule id rest _ u.1 has.1
        (run-Good _ s (Keeps-canary_stage b ks dev env net version user distinct id has.0) good)

  -- the branches of `deploy`
  branch-Good :
      (canary rolling atomic : Bool) (schedule ids : List ℕ) (s : State) (other : Py BatchResult)
      → Unique ids
      → All (HasRow b ks) ids
      → Good s
      → IfEnded Good (
          if canary
          then deploy_canary env net version b user schedule ids s
          else if rolling
          then some (run net (deploy_rolling env net version b user ids) s)
          else if atomic
          then deploy_atomic env net version b user schedule ids s
          else some (other, s))
  unfolding deploy_atomic
  branch-Good true rolling atomic schedule ids s other u has good =
      deploy_canary-Good schedule ids s u has good
  branch-Good false true atomic schedule ids s other u has good =
      run-Good _ s (Keeps-deploy_rolling b ks dev env net version user distinct ids has) good
  branch-Good false false true schedule ids s other u has good =
      after_atomic-Good ids _ (gather-Good schedule ids s u has good)
  branch-Good false false false schedule ids s other u has good = good

  pub deploy-Good :
      (strategy : String) (schedule ids : List ℕ) (s : State)
      → Unique ids
      → All (HasRow b ks) ids
      → Good s
      → IfEnded Good (deploy env net version b user strategy schedule ids s)
  unfolding deploy
  deploy-Good strategy schedule ids s = branch-Good _ _ _ schedule ids s _
