-- ===== src/Orchestrator/Success.antt =====
-- core/orchestrator.py: a deployment that reports success has deployed every device. Atomic
-- deployments stand here, the other strategies below.
pub mod Step
pub mod Rolling
pub mod Canary
pub mod Strategies
use netdeploy.Base.{
  ℕ, zero, suc, String, ◌≡◌, refl, sym, ap, ◌∙◌, inl, inr, Bool, true, false, not, List, [], ◌∷◌,
  map, Option, none, some, All, All-map, All-and, arith, any, get_elem?, ◌==◌, Bool-cases,
  if◌then◌else◌,
}
use mathlib.Core.Path.{subst}
use netdeploy.Text.{Text}
use netdeploy.Py.{Py, ok, raised}
use netdeploy.Db.{Deployment, Status, success, find_in_batch}
use netdeploy.Db.Rows.{keys, Distinct}
use netdeploy.Proc.{State, ret, Net, run}
use netdeploy.Proc.Run.{and_then, run-bind}
use netdeploy.Proc.Total.{run-Total}
use netdeploy.Gather.{gather}
use netdeploy.Gather.Logic.{Among}
use netdeploy.Snapshots.{Env}
use netdeploy.Orchestrator.{
  BatchResult, rolled_back, restored, succeeded, status_of, deploy_atomic, after_atomic,
  atomic_verdict, failures, has_failed, rollback_all,
}
use netdeploy.Orchestrator.Device.{DeviceResult, deploy_to_device}
use netdeploy.Orchestrator.Outcome.{Recorded}
use netdeploy.Orchestrator.Parallel.{gather-Recorded}
use netdeploy.Orchestrator.Leaves.{Unique, once_or_never, Among-All}
use netdeploy.Orchestrator.Total.{Total-rollback_all}

-- The row of a device in the batch says SUCCESS.
abbrev pub Succeeded : ℕ → State → ℕ → Type 0
Succeeded b s dev = (y : Deployment) × (find_in_batch b dev s.db ≡ some y) × (y.status ≡ success)

Among-get :
    (O : ℕ → Type 0) (dev n : ℕ) (ids : List ℕ)
    → Among (λ j. j ≡ dev) O n ids
    → get_elem? ids n ≡ some dev
Among-get O dev zero [] h = elim h [ ]
Among-get O dev (suc n) [] h = elim h [ ]
Among-get O dev zero (x ∷ xs) h = ap some h.0
Among-get O dev (suc n) (x ∷ xs) h = Among-get O dev n xs h.1

Among-first :
    {A : Type 0} (P R O : A → Type 0) (n : ℕ) (xs : List A)
    → Among (λ x. P x × R x) O n xs
    → Among P O n xs
Among-first P R O zero [] h = h
Among-first P R O (suc n) [] h = h
Among-first P R O zero (x ∷ xs) h = (h.0.0, h.1)
Among-first P R O (suc n) (x ∷ xs) h = (h.0, Among-first P R O n xs h.1)

-- Where no device failed, none of the results is a failure.
failures-nil :
    (ids : List ℕ) (os : List (Py DeviceResult)) (n : ℕ) {dev : ℕ} {o : Py DeviceResult}
    → failures ids os ≡ []
    → get_elem? ids n ≡ some dev
    → get_elem? os n ≡ some o
    → has_failed o ≡ false
unfolding failures
failures-nil [] os n none_failed at there = cc
failures-nil (id ∷ ids) [] n none_failed at there = cc
failures-nil (id ∷ ids) (r ∷ rs) zero {dev} {o} none_failed at there =
    elim (Bool-cases (has_failed r)) [
      | inl e ↦ cc
      | inr e ↦ let same : r ≡ o = cc in ap has_failed (sym same) ∙ e
    ]
failures-nil (id ∷ ids) (r ∷ rs) (suc n) none_failed at there = elim (Bool-cases (has_failed r)) [
  | inl e ↦ cc
  | inr e ↦ let rest : failures ids rs ≡ [] = cc in failures-nil ids rs n rest at there
]

pub Recorded-success :
    (old : Option Text) (o : Py DeviceResult) (r : Option Deployment)
    → Recorded old o r
    → has_failed o ≡ false
    → (y : Deployment) × (r ≡ some y) × (y.status ≡ success)
unfolding has_failed
Recorded-success old (raised e) r h good = elim h [ ]
Recorded-success old (ok res) r (y, found, st, ended, err) good =
    (y, found, st ∙ succeeds res.success _ good)
  where
    succeeds :
        (t : Bool) (other : Status) → not t ≡ false → (if t then success else other) ≡ success
    succeeds true other h = refl
    succeeds false other h = cc

pub not_listed :
    (dev : ℕ) (ids : List ℕ) → All (λ i. (i == dev) ≡ false) ids → any (λ i. i == dev) ids ≡ false
not_listed dev [] h = refl
not_listed dev (id ∷ ids) h = rw h.0 (not_listed dev ids h.1)

pub all_listed : (ids : List ℕ) → All (λ dev. any (λ i. i == dev) ids ≡ true) ids
all_listed [] = tt
all_listed (id ∷ ids) = (ground arith, All-map ids (λ dev h. rw h (ground arith)) (all_listed ids))

pub bools_differ : true ≡ false → ⊥
bools_differ e = cc

restored-ne-succeeded : restored ≡ succeeded → ⊥
restored-ne-succeeded e = cc

module _ (env : Env) (net : Net) (b : ℕ) (version : String) (user : Text) (ids : List ℕ) where
  -- an atomic verdict of success came from no failure, and changed nothing
  verdict-succeeded :
      (fs : List ℕ) (s s' : State) (r : BatchResult)
      → run net (atomic_verdict env net version b user ids fs) s ≡ (ok r, s')
      → status_of r ≡ succeeded
      → (fs ≡ []) × (s ≡ s')
  unfolding atomic_verdict run and_then status_of
  verdict-succeeded [] s s' r e good = (refl, ap (λ (q : Py BatchResult × State). q.1) e)
  verdict-succeeded (id ∷ fs) s s' r e good =
      let (u, s₁, done) = run-Total net s (Total-rollback_all ids user) in
      let ends : run net (atomic_verdict env net version b user ids (id ∷ fs)) s
          ≡ (ok (rolled_back b (id ∷ fs)), s₁) =
        rw (run-bind net (rollback_all ids user) (λ x. ret (rolled_back b (id ∷ fs))) s, done)
          refl in
      let same : rolled_back b (id ∷ fs) ≡ r = cc (ends, e) in
      elim (restored-ne-succeeded (ap status_of same ∙ good)) [ ]

  abbrev HasRow : State → ℕ → Type 0
  HasRow s j = (x : Deployment) × (find_in_batch b j s.db ≡ some x)

  -- a device that is listed once, in a run in which its result is no failure
  pub once-Succeeded :
      (schedule : List ℕ) (s s₁ : State) (os : List (Py DeviceResult)) (dev n : ℕ)
      → Distinct (keys s.db)
      → All (HasRow s) ids
      → gather net schedule (map (λ j. deploy_to_device env j version user (some b)) ids) s
        ≡ some (os, s₁)
      → Among (λ i. i ≡ dev) (λ i. (i == dev) ≡ false) n ids
      → HasRow s dev
      → ((o : Py DeviceResult)
          → get_elem? ids n ≡ some dev
          → get_elem? os n ≡ some o
          → has_failed o ≡ false)
      → Succeeded b s₁ dev
  once-Succeeded schedule s s₁ os dev n distinct rows e once (x, found) fine =
      let among = Among-first _ (HasRow s) _ n ids (Among-All _ _ (HasRow s) n ids rows once) in
      let (o, there, recorded) =
        gather-Recorded env net schedule b version user s n ids dev x os s₁ distinct found among
          e in
      Recorded-success x.error_message o _ recorded (fine o (Among-get _ dev n ids once) there)

  -- a device of the list, in a run in which none failed
  none_failed-Succeeded :
      (schedule : List ℕ) (s s₁ : State) (os : List (Py DeviceResult))
      → Distinct (keys s.db)
      → Unique ids
      → All (HasRow s) ids
      → gather net schedule (map (λ j. deploy_to_device env j version user (some b)) ids) s
        ≡ some (os, s₁)
      → failures ids os ≡ []
      → (dev : ℕ) → (any (λ i. i == dev) ids ≡ true) × HasRow s dev
      → Succeeded b s₁ dev
  none_failed-Succeeded schedule s s₁ os distinct unique rows e none_failed dev (is_listed, has) =
      elim (once_or_never dev ids unique) [
        | inl never ↦
            let absent = not_listed dev ids never in
            elim (bools_differ (sym is_listed ∙ absent)) [ ]
        | inr (n, once) ↦
            once-Succeeded schedule s s₁ os dev n distinct rows e once has
              (λ o at there. failures-nil ids os n none_failed at there)
      ]

  -- Under every schedule, an atomic deployment that reports success leaves the status SUCCESS in
  -- the row of every device.
  pub deploy_atomic-Succeeded :
      (schedule : List ℕ) (s s' : State) (r : BatchResult)
      → Distinct (keys s.db)
      → Unique ids
      → All (λ j. (x : Deployment) × (find_in_batch b j s.db ≡ some x)) ids
      → deploy_atomic env net version b user schedule ids s ≡ some (ok r, s')
      → status_of r ≡ succeeded
      → All (Succeeded b s') ids
  unfolding deploy_atomic after_atomic
  deploy_atomic-Succeeded schedule s s' r distinct unique rows e good =
      go (gather net schedule (map (λ j. deploy_to_device env j version user (some b)) ids) s) refl
        e
    where
      go :
          (o : Option (List (Py DeviceResult) × State))
          → gather net schedule (map (λ j. deploy_to_device env j version user (some b)) ids) s ≡ o
          → after_atomic env net version b user ids o ≡ some (ok r, s')
          → All (Succeeded b s') ids
      go none e e' = cc
      go (some (os, s₁)) e e' =
          let (none_failed, same) = verdict-succeeded (failures ids os) s₁ s' r (cc) good in
          All-map ids
            (λ dev h.
              subst (λ u. Succeeded b u dev) same
                (none_failed-Succeeded schedule s s₁ os distinct unique rows e none_failed dev h))
            (All-and _ _ ids (all_listed ids) rows)
