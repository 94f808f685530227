-- ===== src/Orchestrator/Untouched.antt =====
-- core/orchestrator.py: a rolling deployment that stops leaves the rows of the devices after the
-- stop as they were.
use netdeploy.Base.{
  ℕ, String, ◌≡◌, refl, sym, ap, ◌∙◌, Bool, true, false, List, [], ◌∷◌, ◌++◌, Option, some, All,
  All-map, any, ◌==◌, ==_iff, Bool-cases, inl, inr,
}
use mathlib.Core.Path.{subst}
use mathlib.Core.List.{append_assoc}
use netdeploy.Text.{Text}
use netdeploy.Py.{Py, ok}
use netdeploy.Db.{Db, Deployment, find_in_batch}
use netdeploy.Db.Rows.{Key, keys, Distinct}
use netdeploy.Proc.{State, Proc, Net, run}
use netdeploy.Proc.Logic.{Quiet, Quiet-Wp, run-Wp}
use netdeploy.Proc.Run.{and_then, run-bind}
use netdeploy.Proc.Total.{run-Total}
use netdeploy.Snapshots.{Env}
use netdeploy.Orchestrator.{
  BatchResult, rolling_failed, rolling_unhealthy, all_deployed, roll, deploy_rolling, after_deploy,
  after_health,
}
use netdeploy.Orchestrator.Device.{DeviceResult, deploy_to_device, health_check}
use netdeploy.Orchestrator.Rows.{HasKeys, row}
use netdeploy.Orchestrator.Parallel.{HasRow, has_row, Calm-deploy}
use netdeploy.Orchestrator.Health.{run-health_check}
use netdeploy.Orchestrator.Total.{Total-deploy_to_device}

-- the devices of a rolling deployment that were worked on
unfoldable pub touched : Py BatchResult → List ℕ
touched (ok (rolling_failed b done id error)) = done ++ (id ∷ [])
touched (ok (rolling_unhealthy b done error)) = done
touched (ok (all_deployed b ids)) = ids
touched _ = []

abbrev pub listed : ℕ → List ℕ → Bool
listed dev = any (λ i. i == dev)

listed-append-left :
    (dev : ℕ) (xs ys : List ℕ) → listed dev xs ≡ true → listed dev (xs ++ ys) ≡ true
listed-append-left dev [] ys h = cc
listed-append-left dev (x ∷ xs) ys h = elim (Bool-cases (x == dev)) [
  | inl e ↦ rw e refl
  | inr e ↦ let later : listed dev xs ≡ true = cc in rw e (listed-append-left dev xs ys later)
]

listed-last : (dev : ℕ) (xs : List ℕ) → listed dev (xs ++ (dev ∷ [])) ≡ true
listed-last dev [] = rw ((==_iff dev dev).1 refl) refl
listed-last dev (x ∷ xs) = elim (Bool-cases (x == dev)) [
  | inl e ↦ rw e refl
  | inr e ↦ rw e (listed-last dev xs)
]

-- A quiet task leaves the view as it was.
pub run-Quiet :
    {R A : Type 0} (Inv : Db → Type 0) (view : Db → R) (net : Net) {p : Proc A} (s : State)
    → Inv s.db
    → Quiet Inv view p
    → Inv (run net p s).1.db × (view (run net p s).1.db ≡ view s.db)
run-Quiet Inv view net {p} s i q =
    run-Wp Inv view net p (λ o r. r ≡ view s.db) s i (Quiet-Wp Inv view _ (view s.db) q (λ o. refl))

module _ (env : Env) (net : Net) (b : ℕ) (version : String) (user : Text) (dev : ℕ) where
  -- the rest of the loop, after the deployment to one device
  abbrev next : List ℕ → List ℕ → ℕ → List ℕ → DeviceResult → Proc BatchResult
  next all done id ids r =
      after_deploy env net version b user id done
        (roll env net version b user all (done ++ (id ∷ [])) ids) r

  abbrev after_of : List ℕ → List ℕ → ℕ → List ℕ → Bool → Proc BatchResult
  after_of all done id ids h =
      after_health env net version b user id (done ++ (id ∷ []))
        (roll env net version b user all (done ++ (id ∷ [])) ids) h

  -- How the loop goes on, given the outcome of one deployment: it stops with the device touched, or
  -- it goes on from the same state.
  pub data Goes (all done : List ℕ) (id : ℕ) (ids : List ℕ) (s : State)
      : Py BatchResult × State → Type 0 where
    stops :
        (o : Py BatchResult)
        → ((d : ℕ) → listed d (done ++ (id ∷ [])) ≡ true → listed d (touched o) ≡ true)
        → Goes all done id ids s (o, s)
    goes_on :
        Goes all done id ids s (run net (roll env net version b user all (done ++ (id ∷ [])) ids) s)

  next-Goes :
      (all done : List ℕ) (id : ℕ) (ids : List ℕ) (r : DeviceResult) (s : State)
      → Goes all done id ids s (run net (next all done id ids r) s)
  unfolding after_deploy after_health and_then touched run
  next-Goes all done id ids r s = elim (Bool-cases r.success) [
    | inl good ↦ rw good (
        let (h, healthy) = run-health_check net id s in
        rw (run-bind net (health_check id) (after_of all done id ids) s, healthy) (judged h))
    | inr bad ↦ rw bad (stops _ (λ d h. h))
  ]
    where
      judged :
          (h : Bool) → Goes all done id ids s (and_then net (after_of all done id ids) (ok h, s))
      judged true = goes_on
      judged false = stops _ (λ d h. h)

  touched_after_step :
      (all done : List ℕ) (id : ℕ) (ids : List ℕ) (d : ℕ) (s : State) (out : Py BatchResult × State)
      → Goes all done id ids s out
      → listed d (done ++ (id ∷ [])) ≡ true
      → listed d (touched (run net (roll env net version b user all (done ++ (id ∷ [])) ids) s).0)
        ≡ true
      → listed d (touched out.0) ≡ true
  touched_after_step all done id ids d s out (stops o t) h rest = t d h
  touched_after_step all done id ids d s out goes_on h rest = rest

  -- The devices that were completed before stay touched.
  roll-touched :
      (all done ids : List ℕ) (d : ℕ) (s : State)
      → all ≡ done ++ ids
      → listed d done ≡ true
      → listed d (touched (run net (roll env net version b user all done ids) s).0) ≡ true
  unfolding roll run touched and_then
  roll-touched all done [] d s split h = ap (listed d) split ∙ listed-append-left d done [] h
  roll-touched all done (id ∷ ids) d s split h =
      let (r, s₁, e) = run-Total net s (Total-deploy_to_device env id version user (some b)) in
      let more = listed-append-left d done (id ∷ []) h in
      rw (run-bind net (deploy_to_device env id version user (some b)) (next all done id ids) s, e)
        (touched_after_step all done id ids d s₁ _ (next-Goes all done id ids r s₁) more (
          roll-touched all (done ++ (id ∷ [])) ids d s₁
            (split ∙ sym (append_assoc done (id ∷ []) ids)) more))

  module _ (ks : List Key) (distinct : Distinct ks) where
    untouched_after_step :
        (all done : List ℕ) (id : ℕ) (ids : List ℕ) (s : State) (out : Py BatchResult × State)
        (r : Option Deployment)
        → Goes all done id ids s out
        → find_in_batch b dev s.db ≡ r
        → (let out₁ = run net (roll env net version b user all (done ++ (id ∷ [])) ids) s in
            listed dev (touched out₁.0) ≡ false
            → find_in_batch b dev out₁.1.db ≡ find_in_batch b dev s.db)
        → listed dev (touched out.0) ≡ false
        → find_in_batch b dev out.1.db ≡ r
    untouched_after_step all done id ids s out r (stops o t) e rest h = e
    untouched_after_step all done id ids s out r goes_on e rest h = rest h ∙ e

    roll-untouched :
        (all done ids : List ℕ) (s : State)
        → keys s.db ≡ ks
        → all ≡ done ++ ids
        → All (HasRow b ks) ids
        → let (o, s') = run net (roll env net version b user all done ids) s in
          listed dev (touched o) ≡ false → find_in_batch b dev s'.db ≡ find_in_batch b dev s.db
    unfolding roll run and_then
    roll-untouched all done [] s k split has = λ h. refl
    roll-untouched all done (id ∷ ids) s k split has =
        let (r, s₁, e) = run-Total net s (Total-deploy_to_device env id version user (some b)) in
        let p = deploy_to_device env id version user (some b) in
        let goes = next-Goes all done id ids r s₁ in
        let split₁ = split ∙ sym (append_assoc done (id ∷ []) ids) in
        rw (run-bind net p (next all done id ids) s, e)
          (elim (Bool-cases (id == dev)) [
            | inl same ↦
                let last : listed dev (done ++ (id ∷ [])) ≡ true =
                  ap (λ d. listed dev (done ++ (d ∷ []))) ((==_iff id dev).0 same)
                  ∙ listed-last dev done in
                let always =
                  touched_after_step all done id ids dev s₁ _ goes last
                    (roll-touched all (done ++ (id ∷ [])) ids dev s₁ split₁ last) in
                λ h. cc (always, h)
            | inr other ↦
                let calm =
                  run-Quiet (HasKeys b ks) (row b ks dev) net s k
                    (Calm-deploy b ks dev env id version user distinct has.0 other) in
                let keys₁ : keys s₁.db ≡ ks =
                  subst (λ (q : Py DeviceResult × State). keys q.1.db ≡ ks) e calm.0 in
                let row₁ : find_in_batch b dev s₁.db ≡ find_in_batch b dev s.db =
                  subst
                    (λ (q : Py DeviceResult × State).
                      find_in_batch b dev q.1.db ≡ find_in_batch b dev s.db)
                    e calm.1 in
                λ h.
                  untouched_after_step all done id ids s₁ _ _ goes row₁
                    (roll-untouched all (done ++ (id ∷ [])) ids s₁ keys₁ split₁ has.1) h
          ])

  -- If the ids of the deployment rows are distinct and each device has a row in the batch, then a
  -- rolling deployment that stops leaves the row of every device as it was, but for the completed
  -- devices and the one that failed.
  pub deploy_rolling-untouched :
      (ids : List ℕ) (s : State)
      → Distinct (keys s.db)
      → All (λ i. (x : Deployment) × (find_in_batch b i s.db ≡ some x)) ids
      → listed dev (touched (run net (deploy_rolling env net version b user ids) s).0) ≡ false
      → find_in_batch b dev (run net (deploy_rolling env net version b user ids) s).1.db
        ≡ find_in_batch b dev s.db
  unfolding deploy_rolling
  deploy_rolling-untouched ids s distinct rows h =
      roll-untouched (keys s.db) distinct ids [] ids s refl refl
        (All-map ids (λ j (y, has). has_row b j s.db has) rows) h
