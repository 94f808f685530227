-- ===== src/Orchestrator.antt =====
-- core/orchestrator.py: `deploy` and its three strategies. What runs tasks in parallel takes a
-- schedule of their replies, and is `none` where the schedule leaves a task unfinished.
pub mod Records
pub mod Device
pub mod Rows
pub mod Outcome
pub mod Offline
pub mod DryRun
pub mod Ends
pub mod Calm
pub mod Parallel
pub mod Schedules
pub mod Health
pub mod Rolling
pub mod Rollback
pub mod Settled
pub mod Leaves
pub mod Untouched
pub mod Success
pub mod Total
use netdeploy.Base.{
  ℕ, zero, suc, String, Bool, true, false, not, ◌&&◌, List, [], ◌∷◌, ◌++◌, map, Option, none, some,
  str_eq, if◌then◌else◌,
}
use netdeploy.Text.{Text, codes}
use netdeploy.Py.{Py, ok, raised}
use netdeploy.Proc.{State, Proc, ret, ◌>>=◌, ◌>>◌, attempt, Net, run}
use netdeploy.Gather.{gather}
use netdeploy.Snapshots.{Env}
use Device.{DeviceResult, id_text, deploy_to_device, health_check, rollback_device}

-- One constructor for each result dict that `deploy` returns.
pub data BatchResult : Type 0 where
  rejected : Text → BatchResult
  canary_failed : ℕ → Text → BatchResult
  canary_unhealthy : ℕ → Text → BatchResult
  -- the devices, and how many of the others failed
  canary_done : ℕ → List ℕ → ℕ → BatchResult
  -- the completed devices, the device that failed and its error
  rolling_failed : ℕ → List ℕ → ℕ → Option Text → BatchResult
  rolling_unhealthy : ℕ → List ℕ → Text → BatchResult
  rolled_back : ℕ → List ℕ → BatchResult
  all_deployed : ℕ → List ℕ → BatchResult

-- the strings of a result's "status"
pub data BatchStatus : Type 0 where
  succeeded broken restored partial : BatchStatus

unfoldable pub status_of : BatchResult → BatchStatus
status_of (rejected e) = broken
status_of (canary_failed b e) = broken
status_of (canary_unhealthy b e) = restored
status_of (canary_done b ids zero) = succeeded
status_of (canary_done b ids (suc n)) = partial
status_of (rolling_failed b done id e) = broken
status_of (rolling_unhealthy b done e) = broken
status_of (rolled_back b ids) = restored
status_of (all_deployed b ids) = succeeded

-- `result.get("error")`
unfoldable pub error_of : BatchResult → Option Text
error_of (rejected e) = some e
error_of (canary_failed b e) = some e
error_of (canary_unhealthy b e) = some e
error_of (canary_done b ids n) = none
error_of (rolling_failed b done id e) = e
error_of (rolling_unhealthy b done e) = some e
error_of (rolled_back b ids) = some (codes "Atomic deployment failed; all devices rolled back")
error_of (all_deployed b ids) = none

-- `isinstance(r, Exception) or not r.get("success")`
unfoldable pub has_failed : Py DeviceResult → Bool
has_failed (ok r) = not r.success
has_failed (raised e) = true

-- the failures among the devices, in order
unfoldable pub failures : List ℕ → List (Py DeviceResult) → List ℕ
failures (id ∷ ids) (r ∷ rs) = if has_failed r then id ∷ failures ids rs else failures ids rs
failures _ _ = []

unfoldable pub count_failed : List (Py DeviceResult) → ℕ
count_failed [] = 0
count_failed (r ∷ rs) = if has_failed r then suc (count_failed rs) else count_failed rs

-- `f"… {error}"` of an optional error
shown : Option Text → Text
shown none = codes "None"
shown (some e) = e

is_true : Py Bool → Bool
is_true (ok b) = b
is_true (raised e) = false

-- `_rollback_all`: no task awaits a reply, so the tasks run one after the other
unfoldable pub rollback_all : List ℕ → Text → Proc Bool
unfolding is_true
rollback_all [] user_id = ret true
rollback_all (id ∷ ids) user_id = do
  r ← attempt (rollback_device id user_id)
  rest ← rollback_all ids user_id
  ret (is_true r && rest)

module _ (env : Env) (net : Net) (config_version : String) (batch_id : ℕ) (user_id : Text) where
  abbrev deploy_one : ℕ → Proc DeviceResult
  deploy_one id = deploy_to_device env id config_version user_id (some batch_id)

  unfoldable pub after_health : ℕ → List ℕ → Proc BatchResult → Bool → Proc BatchResult
  after_health id completed rest true = rest
  after_health id completed rest false =
      ret (
        rolling_unhealthy batch_id completed (codes "Health check failed at device " ++ id_text id))

  unfoldable pub after_deploy : ℕ → List ℕ → Proc BatchResult → DeviceResult → Proc BatchResult
  unfolding after_health
  after_deploy id completed rest r =
      if r.success
      then (do healthy ← health_check id; after_health id (completed ++ (id ∷ [])) rest healthy)
      else ret (rolling_failed batch_id completed id r.error)

  -- The loop of `_deploy_rolling`, with all devices for the last result.
  unfoldable pub roll : List ℕ → List ℕ → List ℕ → Proc BatchResult
  unfolding after_deploy
  roll device_ids completed [] = ret (all_deployed batch_id device_ids)
  roll device_ids completed (id ∷ ids) = do
    r ← deploy_one id
    after_deploy id completed (roll device_ids (completed ++ (id ∷ [])) ids) r

  unfoldable pub deploy_rolling : List ℕ → Proc BatchResult
  unfolding roll
  deploy_rolling device_ids = roll device_ids [] device_ids

  -- the verdict of `_deploy_atomic`: any failure rolls back every device
  pub atomic_verdict : List ℕ → List ℕ → Proc BatchResult
  atomic_verdict device_ids [] = ret (all_deployed batch_id device_ids)
  atomic_verdict device_ids (id ∷ ids) = do
    rollback_all device_ids user_id
    ret (rolled_back batch_id (id ∷ ids))

  after_atomic : List ℕ → Option (List (Py DeviceResult) × State) → Option (Py BatchResult × State)
  unfolding atomic_verdict
  after_atomic device_ids none = none
  after_atomic device_ids (some (results, s)) =
      some (run net (atomic_verdict device_ids (failures device_ids results)) s)

  unfoldable pub deploy_atomic : List ℕ → List ℕ → State → Option (Py BatchResult × State)
  unfolding after_atomic
  deploy_atomic schedule device_ids s =
      after_atomic device_ids (gather net schedule (map deploy_one device_ids) s)

  -- The canary device: a result if the deployment ends with it.
  judge_health : ℕ → Bool → Proc (Option BatchResult)
  judge_health id true = ret none
  judge_health id false = do
    rollback_device id user_id
    ret (some (canary_unhealthy batch_id (codes "Canary health check failed for " ++ id_text id)))

  judge_canary : ℕ → DeviceResult → Proc (Option BatchResult)
  unfolding judge_health
  judge_canary id r =
      if r.success
      then (do healthy ← health_check id; judge_health id healthy)
      else ret (
          some (
            canary_failed batch_id
              (codes "Canary device " ++ (id_text id ++ (codes " failed: " ++ shown r.error)))))

  unfoldable pub canary_stage : ℕ → Proc (Option BatchResult)
  unfolding judge_canary shown
  canary_stage id = do r ← deploy_one id; judge_canary id r

  after_rest : List ℕ → Option (List (Py DeviceResult) × State) → Option (Py BatchResult × State)
  after_rest device_ids none = none
  after_rest device_ids (some (results, s)) =
      some (ok (canary_done batch_id device_ids (count_failed results)), s)

  after_canary :
      List ℕ → ℕ → List ℕ → Py (Option BatchResult) × State → Option (Py BatchResult × State)
  unfolding after_rest count_failed
  after_canary schedule id rest (raised e, s) = some (raised e, s)
  after_canary schedule id rest (ok (some r), s) = some (ok r, s)
  after_canary schedule id rest (ok none, s) =
      after_rest (id ∷ rest) (gather net schedule (map deploy_one rest) s)

  unfoldable pub deploy_canary : List ℕ → List ℕ → State → Option (Py BatchResult × State)
  unfolding after_canary
  deploy_canary schedule [] s = some (ok (rejected (codes "No devices provided")), s)
  deploy_canary schedule (id ∷ rest) s = after_canary schedule id rest (run net (canary_stage id) s)

  -- `deploy`, with the batch ID that the caller gives
  unfoldable pub deploy : String → List ℕ → List ℕ → State → Option (Py BatchResult × State)
  deploy strategy schedule device_ids s =
      if str_eq strategy "canary"
      then deploy_canary schedule device_ids s
      else if str_eq strategy "rolling"
      then some (run net (deploy_rolling device_ids) s)
      else if str_eq strategy "atomic"
      then deploy_atomic schedule device_ids s
      else some (ok (rejected (codes "Unknown strategy: " ++ codes strategy)), s)
