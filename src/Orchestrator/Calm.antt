-- ===== src/Orchestrator/Calm.antt =====
-- A deployment leaves the rows of other devices alone.
use netdeploy.Base.{ℕ, String, ◌≡◌, refl, Bool, true, false, List, Option, none, some, ◌==◌}
use netdeploy.Text.{Text}
use netdeploy.Value.{Fields, end, field}
use netdeploy.Py.{Exn}
use netdeploy.Db.{Device, Deployment, Status, in_progress, find_deployment, find_device}
use netdeploy.Db.Rows.{Key, owner}
use netdeploy.Proc.{Proc, ◌>>=◌}
use netdeploy.Proc.Logic.{
  quiet_ret, quiet_throw, Quiet-bind, Quiet-lift, Quiet-if, Quiet-try_except, Quiet-try_finally,
}
use netdeploy.Proc.Silent.{
  Silent-connect, Silent-send_config_set, Silent-capture, Silent-verify_all,
}
use netdeploy.Snapshots.{Env}
use netdeploy.Ssh.{SshDevice, disconnect}
use netdeploy.Orchestrator.Records.{
  with_line, get_device, get_desired_config, update_deployment_status, update_found,
  append_deployment_log,
}
use netdeploy.Orchestrator.Device.{
  early_failure, dry_deploy, apply_config, last_steps, on_failure, ssh_deploy, deploy_desired,
  deploy_known, when_deployed, ensure, rollback_device, rollback_known,
}
use netdeploy.Orchestrator.Rows.{
  Calm, Calm-gets, Calm-save_snapshot, Calm-write_audit, Calm-start_time, Calm-end_time,
  Calm-modify_other, assign-KeepsKey,
}

module _ (b : ℕ) (ks : List Key) (dev : ℕ) (env : Env) (mine : ℕ) (version : String) (user : Text)
    (i : ℕ) (own : owner i ks ≡ some (i, b, mine)) (other : (mine == dev) ≡ false) where
  abbrev Other : {A : Type 0} → Proc A → Type 0
  Other = Calm b ks dev

  Calm-status :
      (st : Status) (err logs : Option Text) → Other (update_deployment_status env i st err logs)
  unfolding update_deployment_status
  Calm-status st err logs = Quiet-bind _ _ _ (Calm-gets b ks dev (find_deployment i)) found
    where
      found : (d : Option Deployment) → Other (update_found env i st err logs d)
      found none = quiet_ret tt
      found (some d) = Quiet-bind _ _ _ (Calm-start_time b ks dev env st d.start_time) λ start.
          Quiet-bind _ _ _ (Calm-end_time b ks dev env st d.end_time) λ end.
            Calm-modify_other b ks dev i mine _ (assign-KeepsKey st start end err logs) own other

  Calm-append : (line : Text) → Other (append_deployment_log i line)
  unfolding append_deployment_log
  Calm-append line =
      Calm-modify_other b ks dev i mine (λ d. record d { logs = with_line d.logs line }) (λ d. refl)
        own other

  Calm-early :
      (w : Deployment) (err : Text) → Other (early_failure env mine version user (some w) i err)
  unfolding early_failure when_deployed
  Calm-early w err = Quiet-bind _ _ _ (Calm-status _ _ _) λ u. quiet_ret _

  Calm-rollback : Other (rollback_device mine user)
  unfolding rollback_device get_device rollback_known
  Calm-rollback = Quiet-bind _ _ _ (Calm-gets b ks dev (find_device mine)) known
    where
      known : (d : Option Device) → Other (rollback_known mine user d)
      known none = quiet_ret false
      known (some d) = Quiet-bind _ _ _ (Calm-write_audit b ks dev _ _ _ _) λ u. quiet_ret true

  Calm-dry : (w : Deployment) → Other (dry_deploy env mine version user (some w) i)
  unfolding dry_deploy when_deployed
  Calm-dry w =
      Quiet-bind _ _ _ (Quiet-bind _ _ _ (Calm-append _) λ u. Calm-status _ _ _)
        λ u. Quiet-bind _ _ _ (Calm-write_audit b ks dev _ _ _ _) λ v. quiet_ret _

  Calm-on_failure :
      (w : Deployment) (e : Exn) → Other (on_failure env mine version user (some w) i e)
  unfolding on_failure when_deployed
  Calm-on_failure w e =
      Quiet-bind _ _ _ (Calm-append _) λ u.
        Quiet-bind _ _ _ Calm-rollback λ r. Quiet-bind _ _ _ (Calm-status _ _ _) λ v. quiet_ret _

  Calm-ensure : (test : Bool) (text : Text) → Other (ensure test text)
  unfolding ensure
  Calm-ensure true text = quiet_ret tt
  Calm-ensure false text = quiet_throw _

  Calm-last_steps : (session : SshDevice) → Other (last_steps env mine version user i session)
  unfolding last_steps
  Calm-last_steps session = Quiet-bind _ _ _ (Silent-capture _ _ session) λ config.
      Quiet-bind _ _ _ (Calm-save_snapshot b ks dev env _ _ _ _) λ saved.
        Quiet-bind _ _ _ (Calm-status _ _ _)
          λ u. Quiet-bind _ _ _ (Calm-write_audit b ks dev _ _ _ _) λ v. quiet_ret _

  Calm-apply_config :
      (w : Deployment) (device : Device) (desired : Fields) (ssh : SshDevice)
      → Other (apply_config env mine version user (some w) i device desired ssh)
  unfolding apply_config when_deployed
  Calm-apply_config w device desired ssh = Quiet-bind _ _ _ (Calm-append _) λ u.
      Quiet-bind _ _ _ (Silent-connect _ _ ssh) λ c. Quiet-bind _ _ _ (Calm-ensure _ _) λ u.
        Quiet-bind _ _ _ (Silent-capture _ _ _) λ running.
          Quiet-bind _ _ _ (Calm-save_snapshot b ks dev env _ _ _ _) λ saved.
            Quiet-bind _ _ _ (Quiet-lift _ _ _) λ cmds.
              Quiet-bind _ _ _ (Silent-send_config_set _ _ _ _) λ applied.
                Quiet-bind _ _ _ (Calm-ensure _ _) λ u.
                  Quiet-bind _ _ _ (Silent-verify_all _ _ _ _ _)
                    λ vr. Quiet-bind _ _ _ (Calm-ensure _ _) λ u. Calm-last_steps _

  Calm-ssh_deploy :
      (w : Deployment) (device : Device) (desired : Fields)
      → Other (ssh_deploy env mine version user (some w) i device desired)
  unfolding ssh_deploy ◌>>=◌ disconnect
  Calm-ssh_deploy w device desired =
      Quiet-try_finally _ _
        (Quiet-try_except _ _ _ (Calm-apply_config w device desired _) (Calm-on_failure w))

  Calm-desired :
      (w : Deployment) (device : Device) (desired : Option Fields)
      → Other (deploy_desired env mine version user (some w) i device desired)
  unfolding deploy_desired when_deployed
  Calm-desired w device none = Calm-early w _
  Calm-desired w device (some end) = Calm-early w _
  Calm-desired w device (some (field k v fs)) =
      Quiet-bind _ _ _ (Calm-append _)
        λ u. Quiet-if _ _ _ (Calm-dry w) (Calm-ssh_deploy w device (field k v fs))

  Calm-known :
      (w : Deployment) (device : Option Device)
      → Other (deploy_known env mine version user (some w) i device)
  unfolding deploy_known get_desired_config
  Calm-known w none = Calm-early w _
  Calm-known w (some device) =
      Quiet-bind _ _ _ (Quiet-if _ _ _ (Calm-gets b ks dev _) (quiet_ret none))
        (Calm-desired w device)

  -- What follows once the row is found.
  pub Calm-from_row :
      (w : Deployment)
      → Other (
          when_deployed (some w) (update_deployment_status env i in_progress none none) >>= λ u.
          get_device mine >>= λ device. deploy_known env mine version user (some w) i device)
  unfolding when_deployed get_device
  Calm-from_row w =
      Quiet-bind _ _ _ (Calm-status _ _ _)
        λ u. Quiet-bind _ _ _ (Calm-gets b ks dev _) (Calm-known w)
