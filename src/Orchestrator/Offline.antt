-- ===== src/Orchestrator/Offline.antt =====
-- What the orchestrator does without a call to any device: dry runs, deployments of a version
-- that is not looked up, health checks and rollbacks.
use netdeploy.Base.{ℕ, String, ◌≡◌, true, false, Option, none, some, str_eq}
use netdeploy.Text.{Text}
use netdeploy.Value.{Fields, end, field}
use netdeploy.Db.{Device, Deployment, Status, in_progress, find_device}
use netdeploy.Proc.{Proc, ret, ◌>>=◌}
use netdeploy.Proc.Offline.{
  Offline, offline_ret, offline_query, Offline-bind, Offline-gets, Offline-modify, Offline-if,
  Offline-then, offline_update,
}
use netdeploy.Snapshots.{Env, utcnow, uuid4}
use netdeploy.Orchestrator.Records.{
  get_device, desired_of, latest_config, get_desired_config, get_deployment_for_batch_device,
  start_time_for, end_time_for, update_found, update_deployment_status, append_deployment_log,
  write_audit, is_terminal,
}
use netdeploy.Orchestrator.Device.{
  no_config, when_deployed, deployment_id_of, rollback_known, rollback_device, health_of,
  health_check, early_failure, dry_deploy, deploy_desired, deploy_known, deploy_to_device,
}

Offline-utcnow : (env : Env) → Offline (utcnow env)
unfolding utcnow
Offline-utcnow env = offline_query _ λ d. offline_update _ _ (offline_ret _)

Offline-uuid4 : (env : Env) → Offline (uuid4 env)
unfolding uuid4
Offline-uuid4 env = offline_query _ λ d. offline_update _ _ (offline_ret _)

Offline-start_time : (env : Env) (st : Status) (t : Option ℕ) → Offline (start_time_for env st t)
unfolding start_time_for
Offline-start_time env in_progress none =
    Offline-bind _ (Offline-utcnow env) λ t. offline_ret (some t)
Offline-start_time env _ t = offline_ret t

Offline-end_time : (env : Env) (st : Status) (t : Option ℕ) → Offline (end_time_for env st t)
unfolding end_time_for
Offline-end_time env st t =
    Offline-if (is_terminal st) (Offline-bind _ (Offline-utcnow env) λ t. offline_ret (some t))
      (offline_ret t)

Offline-update_found :
    (env : Env) (i : ℕ) (st : Status) (err logs : Option Text) (d : Option Deployment)
    → Offline (update_found env i st err logs d)
unfolding update_found
Offline-update_found env i st err logs none = offline_ret tt
Offline-update_found env i st err logs (some d) =
    Offline-bind _ (Offline-start_time env st d.start_time)
      λ start. Offline-bind _ (Offline-end_time env st d.end_time) λ end. Offline-modify _

Offline-update_deployment_status :
    (env : Env) (i : ℕ) (st : Status) (err logs : Option Text)
    → Offline (update_deployment_status env i st err logs)
unfolding update_deployment_status
Offline-update_deployment_status env i st err logs =
    Offline-bind _ (Offline-gets _) λ d. Offline-update_found env i st err logs d

Offline-append : (i : ℕ) (line : Text) → Offline (append_deployment_log i line)
unfolding append_deployment_log
Offline-append i line = Offline-modify _

Offline-write_audit :
    (user : Text) (action : String) (i : ℕ) (details : Fields)
    → Offline (write_audit user action i details)
unfolding write_audit
Offline-write_audit user action i details = Offline-modify _

Offline-when_deployed :
    (w : Option Deployment) {p : Proc (Unit {0})} → Offline p → Offline (when_deployed w p)
unfolding when_deployed
Offline-when_deployed none h = offline_ret tt
Offline-when_deployed (some d) h = h

pub Offline-health_check : (i : ℕ) → Offline (health_check i)
unfolding health_check get_device health_of get_desired_config
Offline-health_check i = Offline-bind _ (Offline-gets (find_device i)) known
  where
    known : (d : Option Device) → Offline (health_of i d)
    known none = offline_ret false
    known (some d) =
        Offline-bind (λ c. ret true) (Offline-gets (λ db. desired_of (latest_config i db)))
          λ c. offline_ret true

pub Offline-rollback_device : (i : ℕ) (user : Text) → Offline (rollback_device i user)
unfolding rollback_device get_device rollback_known
Offline-rollback_device i user = Offline-bind _ (Offline-gets _) known
  where
    known : (d : Option Device) → Offline (rollback_known i user d)
    known none = offline_ret false
    known (some d) = Offline-bind _ (Offline-write_audit _ _ _ _) λ u. offline_ret true

module _ (env : Env) (dev : ℕ) (version : String) (user : Text) where
  Offline-early_failure :
      (w : Option Deployment) (i : ℕ) (err : Text)
      → Offline (early_failure env dev version user w i err)
  unfolding early_failure
  Offline-early_failure w i err =
      Offline-bind _ (Offline-when_deployed w (Offline-update_deployment_status _ _ _ _ _))
        λ u. offline_ret _

  Offline-dry_deploy :
      (w : Option Deployment) (i : ℕ) → Offline (dry_deploy env dev version user w i)
  unfolding dry_deploy
  Offline-dry_deploy w i =
      Offline-bind _
        (Offline-when_deployed w
          (Offline-bind _ (Offline-append _ _) λ u. Offline-update_deployment_status _ _ _ _ _))
        λ u. Offline-bind _ (Offline-write_audit _ _ _ _) λ u. offline_ret _

  -- Up to `desired_config`, a deployment calls no device.
  Offline-until_desired :
      ((w : Option Deployment) (i : ℕ) (device : Device)
        → Offline (
            get_desired_config dev version >>= λ desired.
            deploy_desired env dev version user w i device desired))
      → (batch : Option ℕ) → Offline (deploy_to_device env dev version user batch)
  unfolding deploy_to_device get_device get_deployment_for_batch_device deployment_id_of
      deploy_known
  Offline-until_desired h batch = Offline-bind _ (row_of batch) λ w. Offline-bind _ (id_of w) λ i.
      Offline-bind _ (Offline-when_deployed w (Offline-update_deployment_status _ _ _ _ _))
        λ u. Offline-bind _ (Offline-gets _) (known w i)
    where
      row_of : (batch : Option ℕ) → Offline (get_deployment_for_batch_device batch dev)
      row_of none = offline_ret none
      row_of (some b) = Offline-gets _

      id_of : (w : Option Deployment) → Offline (deployment_id_of env w)
      id_of none = Offline-uuid4 env
      id_of (some d) = offline_ret _

      known :
          (w : Option Deployment) (i : ℕ) (d : Option Device)
          → Offline (deploy_known env dev version user w i d)
      known w i none = Offline-early_failure w i _
      known w i (some d) = h w i d

  Offline-desired :
      env.dry_run ≡ true
      → (w : Option Deployment) (i : ℕ) (device : Device) (desired : Option Fields)
      → Offline (deploy_desired env dev version user w i device desired)
  unfolding deploy_desired
  Offline-desired dry w i device none = Offline-early_failure w i _
  Offline-desired dry w i device (some end) = Offline-early_failure w i _
  Offline-desired dry w i device (some (field k v fs)) =
      Offline-bind _ (Offline-when_deployed w (Offline-append _ _))
        λ u. Offline-then _ dry (Offline-dry_deploy w i)

  pub Offline-dry :
      (batch : Option ℕ)
      → env.dry_run ≡ true
      → Offline (deploy_to_device env dev version user batch)
  unfolding get_desired_config
  Offline-dry batch dry =
      Offline-until_desired
        (λ w i d.
          Offline-bind _ (Offline-if _ (Offline-gets _) (offline_ret none))
            (Offline-desired dry w i d))
        batch

  pub Offline-other_version :
      (batch : Option ℕ)
      → str_eq version "latest" ≡ false
      → Offline (deploy_to_device env dev version user batch)
  unfolding get_desired_config deploy_desired ◌>>=◌
  Offline-other_version batch other =
      Offline-until_desired (λ w i d. rw other (Offline-early_failure w i (no_config dev version)))
        batch
