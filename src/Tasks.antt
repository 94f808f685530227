-- ===== src/Tasks.antt =====
-- tasks/deployment.py: the Celery tasks that run a deployment. Celery calls them, and retries a
-- task that raises; the session that a task opens is the one of the model.
pub mod OnePass
pub mod Finished
pub mod Validation
use netdeploy.Base.{
  ℕ, String, Bool, true, false, ◌&&◌, List, [], ◌∷◌, Option, none, some, ◌==◌, keep, if◌then◌else◌,
}
use netdeploy.Text.{Text, codes}
use netdeploy.Py.{Py, Exn, ok, raised}
use netdeploy.Db.{Db, Deployment, Status, queued, success, rollback, failed, modify_deployment}
use netdeploy.Proc.{State, Proc, ret, ◌>>=◌, ◌>>◌, gets, modify, Net, run}
use netdeploy.Snapshots.{Env, utcnow, uuid4}
use netdeploy.Orchestrator.{
  BatchResult, BatchStatus, succeeded, broken, restored, partial, status_of, error_of, deploy,
}
use netdeploy.Orchestrator.Device.{DeviceResult, deploy_to_device, rollback_device}

-- `status_map`
unfoldable pub row_status : BatchStatus → Status
row_status succeeded = success
row_status broken = failed
row_status restored = rollback
row_status partial = failed

-- `result.get("error") or "Deployment did not complete"`
unfoldable pub error_or_default : Option Text → Text
error_or_default none = codes "Deployment did not complete"
error_or_default (some []) = codes "Deployment did not complete"
error_or_default (some (c ∷ t)) = c ∷ t

-- `if not dep.error_message: dep.error_message = error`
unfoldable pub old_or : Option Text → Text → Option Text
old_or none error = some error
old_or (some []) error = some error
old_or (some (c ∷ t)) error = some (c ∷ t)

is_queued : Status → Bool
is_queued queued = true
is_queued _ = false

unfoldable pub is_stale : ℕ → Deployment → Bool
unfolding is_queued
is_stale batch_id d = (d.batch_id == batch_id) && is_queued d.status

unfoldable pub stale_rows : ℕ → Db → List Deployment
stale_rows batch_id db = keep (is_stale batch_id) db.deployments

unfoldable pub finished_row : Status → Text → ℕ → Deployment → Deployment
finished_row target error end d = record d {
  status = target;
  error_message = old_or d.error_message error;
  end_time = some end;
}

-- `if not dep.end_time: dep.end_time = datetime.utcnow()`
unfoldable pub end_or_now : Env → Option ℕ → Proc ℕ
end_or_now env none = utcnow env
end_or_now env (some t) = ret t

unfoldable pub finish_rows : Env → Status → Text → List Deployment → Proc (Unit {0})
unfolding end_or_now finished_row
finish_rows env target error [] = ret tt
finish_rows env target error (d ∷ ds) = do
  end ← end_or_now env d.end_time
  modify (modify_deployment d.id (finished_row target error end))
  finish_rows env target error ds

-- `_finalize_batch_status`, with the batch ID that `UUID` parses: `none` is a ValueError.
unfoldable pub finalize_batch_status : Env → Option ℕ → BatchResult → Proc (Unit {0})
finalize_batch_status env none result = ret tt
finalize_batch_status env (some batch_id) result = do
  stale ← gets (stale_rows batch_id)
  finish_rows env (row_status (status_of result)) (error_or_default (error_of result)) stale

-- How a task ends: with a result, or with `self.retry`.
pub data TaskEnd (A : Type 0) : Type 0 where
  returned : A → TaskEnd A
  retried : Exn → TaskEnd A

end_of : {A : Type 0} → Py A × State → TaskEnd A × State
end_of (ok a, s) = (returned a, s)
end_of (raised e, s) = (retried e, s)

module _ (env : Env) (net : Net) where
  after_finalize : BatchResult → Py (Unit {0}) × State → TaskEnd BatchResult × State
  after_finalize result (ok u, s) = (returned result, s)
  after_finalize result (raised e, s) = (retried e, s)

  after_batch : ℕ → Option (Py BatchResult × State) → Option (TaskEnd BatchResult × State)
  unfolding after_finalize
  after_batch batch_id none = none
  after_batch batch_id (some (raised e, s)) = some (retried e, s)
  after_batch batch_id (some (ok result, s)) =
      some (after_finalize result (run net (finalize_batch_status env (some batch_id) result) s))

  -- `validate_and_deploy_task`, with the batch ID that its caller gives; as `deploy`, it takes a
  -- schedule of the replies.
  unfoldable pub validate_and_deploy_task :
      List ℕ → List ℕ → String → String → ℕ → Text → State → Option (TaskEnd BatchResult × State)
  unfolding after_batch
  validate_and_deploy_task schedule device_ids config_version strategy batch_id user_id s =
      after_batch batch_id
        (deploy env net config_version batch_id user_id strategy schedule device_ids s)

  -- the task `deploy_to_device`
  unfoldable pub deploy_device_task :
      ℕ → String → Option ℕ → Text → State → TaskEnd DeviceResult × State
  unfolding end_of
  deploy_device_task device_id config_version batch_id user_id s =
      end_of (run net (deploy_to_device env device_id config_version user_id batch_id) s)

  -- the task `rollback_device`: the device of the reply is the argument, and the deployment and
  -- the backup version are not read
  unfoldable pub rollback_device_task : ℕ → Text → State → TaskEnd Bool × State
  unfolding end_of
  rollback_device_task device_id user_id s = end_of (run net (rollback_device device_id user_id) s)
