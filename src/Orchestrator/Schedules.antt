-- ===== src/Orchestrator/Schedules.antt =====
-- core/orchestrator.py: `deploy` can be brought to its end under every strategy.
use netdeploy.Base.{
  ℕ, String, ◌≡◌, refl, Bool, true, false, List, [], ◌∷◌, ◌++◌, map, Option, none, some,
  if◌then◌else◌, str_eq,
}
use netdeploy.Text.{Text, codes}
use netdeploy.Py.{Py, ok, raised}
use netdeploy.Proc.{State, Net, run}
use netdeploy.Gather.Ends.{gather-ends}
use netdeploy.Snapshots.{Env}
use netdeploy.Orchestrator.{
  BatchResult, deploy, deploy_canary, deploy_atomic, after_canary, after_rest, after_atomic,
  canary_stage, atomic_verdict, failures, canary_done, count_failed, deploy_rolling, rejected,
}
use netdeploy.Orchestrator.Device.{deploy_to_device}

module _ (env : Env) (net : Net) (version : String) (batch : ℕ) (user : Text) where
  -- A schedule under which a part of a batch returns.
  abbrev Returns : (List ℕ → Option (Py BatchResult × State)) → Type 0
  Returns part = (schedule : List ℕ) × (r : Py BatchResult × State) × (part schedule ≡ some r)

  Returns-atomic :
      (ids : List ℕ) (s : State)
      → Returns (λ schedule. deploy_atomic env net version batch user schedule ids s)
  unfolding deploy_atomic after_atomic
  Returns-atomic ids s =
      let (schedule, (os, s'), e) =
        gather-ends net (map (λ i. deploy_to_device env i version user (some batch)) ids) s in
      (schedule, run net (atomic_verdict env net version batch user ids (failures ids os)) s', rw e)

  Returns-rest :
      (id : ℕ) (rest : List ℕ) (first : Py (Option BatchResult) × State)
      → Returns (λ schedule. after_canary env net version batch user schedule id rest first)
  unfolding after_canary after_rest
  Returns-rest id rest (raised e, s) = ([], _, refl)
  Returns-rest id rest (ok (some r), s) = ([], _, refl)
  Returns-rest id rest (ok none, s) =
      let (schedule, (os, s'), e) =
        gather-ends net (map (λ i. deploy_to_device env i version user (some batch)) rest) s in
      (schedule, (ok (canary_done batch (id ∷ rest) (count_failed os)), s'), rw e)

  Returns-canary :
      (ids : List ℕ) (s : State)
      → Returns (λ schedule. deploy_canary env net version batch user schedule ids s)
  unfolding deploy_canary
  Returns-canary [] s = ([], _, refl)
  Returns-canary (id ∷ rest) s =
      Returns-rest id rest (run net (canary_stage env net version batch user id) s)

  -- the branches of `deploy`
  Returns-branch :
      (canary rolling atomic : Bool) (ids : List ℕ) (s : State) (other : Py BatchResult)
      → Returns (λ schedule.
        if canary
        then deploy_canary env net version batch user schedule ids s
        else if rolling
        then some (run net (deploy_rolling env net version batch user ids) s)
        else if atomic
        then deploy_atomic env net version batch user schedule ids s
        else some (other, s))
  Returns-branch true rolling atomic ids s other = Returns-canary ids s
  Returns-branch false true atomic ids s other = ([], _, refl)
  Returns-branch false false true ids s other = Returns-atomic ids s
  Returns-branch false false false ids s other = ([], _, refl)

  -- For every strategy, list of devices and state, whatever the devices answer or raise, there is
  -- a schedule under which the batch returns.
  pub deploy-Returns :
      (strategy : String) (ids : List ℕ) (s : State)
      → (schedule : List ℕ) × (r : Py BatchResult × State) × (deploy env net version batch user
            strategy schedule ids s
          ≡ some r)
  unfolding deploy
  deploy-Returns strategy ids s =
      Returns-branch (str_eq strategy "canary") (str_eq strategy "rolling")
        (str_eq strategy "atomic") ids s
        (ok (rejected (codes "Unknown strategy: " ++ codes strategy)))
