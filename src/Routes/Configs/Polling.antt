-- ===== src/Routes/Configs/Polling.antt =====
-- api/routes/configs.py: a validation that Celery runs, and the poll of its result. What `delay`
-- and `AsyncResult` answer are parameters.
use netdeploy.Base.{ℕ, String, Bool, Option, none, some, str_eq, if◌then◌else◌}
use netdeploy.Text.{Text, codes}
use netdeploy.Value.{Value, Fields, str, obj, end, field}
use netdeploy.Db.{Device, find_device}
use netdeploy.Proc.{Proc, ret, ◌>>=◌, gets}
use netdeploy.Routes.{message, Reply, reply, refused}
use netdeploy.Routes.Configs.{ConfigRequest, state_of}

-- the arguments of `validate_config_task.delay`
pub record ValidateJob : Type 0 where
  pub device_id : ℕ
  pub desired_state : Fields
  pub device_type : String
  pub run_preflight : Bool
  pub user_id : Text

module _ (delay : ValidateJob → Proc Text) (user_id : Text) where
  enqueue_validation : ConfigRequest → Bool → Option Device → Proc (Reply (Text × ℕ))
  enqueue_validation r run_preflight none = ret (refused 404 (message (codes "Device not found")))
  enqueue_validation r run_preflight (some d) = do
    task ← delay (record {
      device_id = r.device_id;
      desired_state = state_of r;
      device_type = d.device_type;
      run_preflight = run_preflight;
      user_id = user_id;
    })
    ret (reply (task, r.device_id))

  -- The reply is the task's id and the device; its status is "PENDING".
  unfoldable pub validate_config_async : ConfigRequest → Bool → Proc (Reply (Text × ℕ))
  unfolding enqueue_validation
  validate_config_async r run_preflight = do
    device ← gets (find_device r.device_id)
    enqueue_validation r run_preflight device

-- The state of a task, its result, and the text of the result.
pub record AsyncResult : Type 0 where
  pub state : String
  pub result : Value
  pub shown : Text

unfoldable pub validate_status : (Text → AsyncResult) → Text → Value
validate_status find task_id =
    let r = find task_id in
    if str_eq r.state "PENDING"
    then obj (field "task_id" (str task_id) (field "status" (str (codes "PENDING")) end))
    else if str_eq r.state "SUCCESS"
    then obj (
        field "task_id" (str task_id)
          (field "status" (str (codes "SUCCESS")) (field "result" r.result end)))
    else if str_eq r.state "FAILURE"
    then obj (
        field "task_id" (str task_id)
          (field "status" (str (codes "FAILURE")) (field "error" (str r.shown) end)))
    else obj (field "task_id" (str task_id) (field "status" (str (codes r.state)) end))
