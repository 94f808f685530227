-- ===== src/Orchestrator/Success/Strategies.antt =====
-- core/orchestrator.py: a batch that reports success, whatever its strategy.
use netdeploy.Base.{
  ℕ, String, ◌≡◌, refl, ap, ◌∙◌, Bool, true, false, List, [], ◌∷◌, some, All, All-map, All-and,
  if◌then◌else◌,
}
use netdeploy.Text.{Text}
use netdeploy.Py.{ok}
use netdeploy.Db.{Deployment, find_in_batch}
use netdeploy.Db.Rows.{keys, Distinct}
use netdeploy.Proc.{State, Net, run}
use netdeploy.Snapshots.{Env}
use netdeploy.Orchestrator.{
  BatchResult, rejected, succeeded, status_of, deploy, deploy_canary, deploy_rolling, deploy_atomic,
}
use netdeploy.Orchestrator.Parallel.{HasRow, has_row}
use netdeploy.Orchestrator.Leaves.{Unique}
use netdeploy.Orchestrator.Success.{Succeeded, deploy_atomic-Succeeded, all_listed}
use netdeploy.Orchestrator.Success.Rolling.{roll-Succeeded, broken-ne-succeeded}
use netdeploy.Orchestrator.Success.Canary.{canary-Succeeded}

module _ (env : Env) (net : Net) (version : String) (b : ℕ) (user : Text) (schedule : List ℕ)
    (s : State) (distinct : Distinct (keys s.db)) where
  abbrev InBatch : ℕ → Type 0
  InBatch j = (x : Deployment) × (find_in_batch b j s.db ≡ some x)

  canary_all :
      (ids : List ℕ) (s' : State) (r : BatchResult)
      → Unique ids
      → All InBatch ids
      → deploy_canary env net version b user schedule ids s ≡ some (ok r, s')
      → status_of r ≡ succeeded
      → All (Succeeded b s') ids
  unfolding deploy_canary
  canary_all [] s' r unique rows e good = tt
  canary_all (id ∷ rest) s' r unique rows e good =
      All-map (id ∷ rest)
        (λ dev (listed, has).
          canary-Succeeded env net b version user schedule id rest r s' good (keys s.db) distinct
            dev s refl unique.1 has_rows (has_row b dev s.db has.1) e listed)
        (All-and _ _ (id ∷ rest) (all_listed (id ∷ rest)) rows)
    where
      has_rows : All (HasRow b (keys s.db)) (id ∷ rest)
      has_rows = All-map (id ∷ rest) (λ j h. has_row b j s.db h.1) rows

  -- the branches of `deploy`
  branch_all :
      (canary rolling atomic : Bool) (other : Text) (ids : List ℕ) (s' : State) (r : BatchResult)
      → Unique ids
      → All InBatch ids
      → (if canary
          then deploy_canary env net version b user schedule ids s
          else if rolling
          then some (run net (deploy_rolling env net version b user ids) s)
          else if atomic
          then deploy_atomic env net version b user schedule ids s
          else some (ok (rejected other), s))
        ≡ some (ok r, s')
      → status_of r ≡ succeeded
      → All (Succeeded b s') ids
  unfolding deploy_rolling status_of
  branch_all true rolling atomic other ids s' r unique rows e good =
      canary_all ids s' r unique rows e good
  branch_all false true atomic other ids s' r unique rows e good =
      All-map ids
        (λ dev listed.
          roll-Succeeded env net b version user (keys s.db) distinct dev ids [] ids false s s' r
            refl (All-map ids (λ j h. has_row b j s.db h.1) rows) (λ h. cc) (cc) good listed)
        (all_listed ids)
  branch_all false false true other ids s' r unique rows e good =
      deploy_atomic-Succeeded env net b version user ids schedule s s' r distinct unique rows e good
  branch_all false false false other ids s' r unique rows e good =
      let same : rejected other ≡ r = cc in
      elim (broken-ne-succeeded (ap status_of same ∙ good)) [ ]

  -- If the ids of the deployment rows are distinct, no device is listed twice and each device has a
  -- row in the batch, then under every strategy and schedule, a batch that reports success leaves
  -- the status SUCCESS in the row of every device.
  pub deploy-Succeeded :
      (strategy : String) (ids : List ℕ) (s' : State) (r : BatchResult)
      → Unique ids
      → All (λ j. (x : Deployment) × (find_in_batch b j s.db ≡ some x)) ids
      → deploy env net version b user strategy schedule ids s ≡ some (ok r, s')
      → status_of r ≡ succeeded
      → All (Succeeded b s') ids
  unfolding deploy
  deploy-Succeeded strategy ids s' r = branch_all _ _ _ _ ids s' r
