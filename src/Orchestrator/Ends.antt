-- ===== src/Orchestrator/Ends.antt =====
-- core/orchestrator.py: a deployment to one device, with no other task running.
use netdeploy.Base.{ℕ, String, ◌≡◌, refl, some}
use netdeploy.Text.{Text}
use netdeploy.Db.{Deployment, find_in_batch}
use netdeploy.Db.Rows.{keys, Distinct}
use netdeploy.Proc.{State, Net, run}
use netdeploy.Proc.Logic.{run-Wp}
use netdeploy.Snapshots.{Env}
use netdeploy.Orchestrator.Device.{deploy_to_device}
use netdeploy.Orchestrator.Rows.{HasKeys, row}
use netdeploy.Orchestrator.Outcome.{Recorded, Wp-deploy_to_device}

-- If the ids of the deployment rows are distinct and a device has a row in the batch, then
-- `_deploy_to_device` returns a result dict whatever the device answers or raises, and the row
-- that it finds in the batch afterwards tells that result: the status is SUCCESS for a success,
-- FAILED for a failure before a connection was tried and ROLLBACK for any later one; the end time
-- is set; and the error message is that of the result, or the old one if there is none. Ids,
-- batches and devices of all rows are as before.
pub deploy_to_device-Recorded :
    (env : Env) (net : Net) (b dev : ℕ) (version : String) (user : Text) (s : State)
    (x : Deployment)
    → Distinct (keys s.db)
    → find_in_batch b dev s.db ≡ some x
    → let (o, s') = run net (deploy_to_device env dev version user (some b)) s in
      (keys s'.db ≡ keys s.db) × Recorded x.error_message o (find_in_batch b dev s'.db)
deploy_to_device-Recorded env net b dev version user s x distinct found =
    let start = Wp-deploy_to_device b (keys s.db) distinct env dev version user x in
    run-Wp (HasKeys b (keys s.db)) (row b (keys s.db) dev) net
      (deploy_to_device env dev version user (some b)) (Recorded x.error_message) s refl
      (rw found start)
