-- ===== src/Orchestrator/Outcome.antt =====
-- What `_deploy_to_device` leaves in the row of its device, whatever the device answers and
-- whatever the other tasks do in between.
use netdeploy.Base.{
  ℕ, String, ◌≡◌, refl, ◌≢◌, Bool, true, false, List, ◌++◌, Option, none, some, if◌then◌else◌,
}
use netdeploy.Text.{Text, codes}
use netdeploy.Value.{Fields, end, field}
use netdeploy.Py.{Py, Exn, ok, raised}
use netdeploy.Db.{Device, Deployment, Status, in_progress, success, rollback, failed, find_device}
use netdeploy.Db.Rows.{Key, Distinct}
use netdeploy.Proc.{Proc, ◌>>=◌}
use netdeploy.Proc.Logic.{
  Wp, After, Handled, Wp-ret, Wp-bind, Wp-step, Wp-if, Wp-try_except, Wp-try_finally, Quiet-lift,
  quiet_ret, quiet_throw,
}
use netdeploy.Proc.Silent.{
  Silent-connect, Silent-send_config_set, Silent-capture, Silent-verify_all,
}
use netdeploy.Snapshots.{Env}
use netdeploy.Ssh.{SshDevice, disconnect}
use netdeploy.Orchestrator.Records.{
  or_old, with_line, assign, get_device, get_desired_config, get_deployment_for_batch_device,
}
use netdeploy.Orchestrator.Device.{
  DeviceResult, early_failure, dry_deploy, apply_config, last_steps, on_failure, ssh_deploy,
  deploy_desired, deploy_known, deploy_to_device, when_deployed, ensure, rollback_device,
  rollback_known, deployment_id_of,
}
use netdeploy.Orchestrator.Rows.{
  HasKeys, row, Wp-update, Wp-append, Wp-gets, Wp-find, Wp-write_audit, Calm-save_snapshot,
}

-- The status that goes with a result: the failures before a connection is tried name no
-- deployment.
abbrev pub recorded_status : DeviceResult → Status
recorded_status r =
    if r.success then success else elim r.deployment_id [ none ↦ failed | some i ↦ rollback ]

-- The result is a value and the row tells it: its status, its end, and its error over the old one.
abbrev pub Recorded : Option Text → Py DeviceResult → Option Deployment → Type 0
Recorded old (raised e) r = ⊥
Recorded old (ok res) r =
    (y : Deployment) × (r ≡ some y)
    × (y.status ≡ recorded_status res)
    × (y.end_time ≢ none)
    × (y.error_message ≡ or_old res.error old)

module _ (b : ℕ) (ks : List Key) (distinct : Distinct ks) (env : Env) (dev : ℕ) (version : String)
    (user : Text) where
  abbrev RowWp :
      {A : Type 0} → Proc A → (Py A → Option Deployment → Type 0) → Option Deployment → Type 0
  RowWp = Wp (HasKeys b ks) (row b ks dev)

  Wp-rollback_known :
      (d : Option Device) (Q : Py Bool → Option Deployment → Type 0) (r : Option Deployment)
      → ((a : Bool) → Q (ok a) r)
      → RowWp (rollback_known dev user d) Q r
  unfolding rollback_known After
  Wp-rollback_known none Q r h = Wp-ret _ _ _ Q r (h false)
  Wp-rollback_known (some d) Q r h =
      Wp-bind _ _ _ _ Q r
        (Wp-write_audit b ks dev user "ROLLBACK" dev _ _ r (Wp-ret _ _ _ Q r (h true)))

  Wp-rollback_device :
      (Q : Py Bool → Option Deployment → Type 0) (r : Option Deployment)
      → ((a : Bool) → Q (ok a) r)
      → RowWp (rollback_device dev user) Q r
  unfolding rollback_device get_device After
  Wp-rollback_device Q r h =
      Wp-bind _ _ _ _ Q r (Wp-gets b ks dev (find_device dev) _ r (λ d. Wp-rollback_known d Q r h))

  Wp-early_failure :
      (w y : Deployment) (err : Text)
      → RowWp
          (early_failure env dev version user (some w) y.id err)
          (Recorded y.error_message)
          (some y)
  unfolding early_failure when_deployed After assign
  Wp-early_failure w y err = Wp-bind _ _ _ _ _ _ (
      Wp-update b ks dev distinct env y failed (some err) none _
        λ start end ended. Wp-ret _ _ _ _ _ (_, refl, refl, ended refl, refl))

  -- the `except` clause
  Wp-on_failure :
      (w y : Deployment) (e : Exn)
      → RowWp (on_failure env dev version user (some w) y.id e) (Recorded y.error_message) (some y)
  unfolding on_failure when_deployed After assign
  Wp-on_failure w y e = Wp-bind _ _ _ _ _ _ (
      Wp-append b ks dev distinct y _ _ (
        Wp-bind _ _ _ _ _ _ (
          Wp-rollback_device _ _ λ a. Wp-bind _ _ _ _ _ _ (
            Wp-update b ks dev distinct env (record y { logs = _ }) rollback _ none _
              λ start end ended. Wp-ret _ _ _ _ _ (_, refl, refl, ended refl, refl)))))

  Wp-dry_deploy :
      (w y : Deployment)
      → RowWp (dry_deploy env dev version user (some w) y.id) (Recorded y.error_message) (some y)
  unfolding dry_deploy when_deployed After assign
  Wp-dry_deploy w y = Wp-bind _ _ _ _ _ _ (
      Wp-bind _ _ _ _ _ _ (
        Wp-append b ks dev distinct y _ _ (
          Wp-update b ks dev distinct env (record y { logs = _ }) success none none _
            λ start end ended. Wp-bind _ _ _ _ _ _ (
              Wp-write_audit b ks dev user "DEPLOY" dev _ _ _
                (Wp-ret _ _ _ _ _ (_, refl, refl, ended refl, refl))))))

  abbrev Caught : Deployment → ℕ → Option Text → Py DeviceResult → Option Deployment → Type 0
  Caught w i old =
      Handled (HasKeys b ks) (row b ks dev) (on_failure env dev version user (some w) i)
        (Recorded old)

  -- An exception at any point of the `try` leads to the handler.
  raised_here : (w y : Deployment) (e : Exn) → Caught w y.id y.error_message (raised e) (some y)
  unfolding Handled
  raised_here w y e = Wp-on_failure w y e

  Wp-ensure :
      (w y : Deployment) (test : Bool) (text : Text) (f : Unit {0} → Proc DeviceResult)
      → RowWp (f tt) (Caught w y.id y.error_message) (some y)
      → RowWp (ensure test text >>= f) (Caught w y.id y.error_message) (some y)
  unfolding ensure
  Wp-ensure w y true text f h = Wp-step _ _ f _ _ (quiet_ret tt) (raised_here w y) (λ u. h)
  Wp-ensure w y false text f h = Wp-step _ _ f _ _ (quiet_throw _) (raised_here w y) (λ u. h)

  -- step 7
  Wp-last_steps :
      (w z : Deployment) (session : SshDevice)
      → ((e : Exn) → Caught w z.id z.error_message (raised e) (some z))
      → RowWp
          (last_steps env dev version user z.id session)
          (Caught w z.id z.error_message)
          (some z)
  unfolding last_steps After Handled assign
  Wp-last_steps w z session fail =
      Wp-step _ _ _ _ _ (Silent-capture _ _ session) fail λ running_after.
        Wp-step _ _ _ _ _ (Calm-save_snapshot b ks dev env _ _ _ _) fail λ saved.
          Wp-bind _ _ _ _ _ _ (
            Wp-update b ks dev distinct env z success none none _ λ start end ended.
              Wp-bind _ _ _ _ _ _ (
                Wp-write_audit b ks dev user "DEPLOY" dev _ _ _
                  (Wp-ret _ _ _ _ _ (_, refl, refl, ended refl, refl))))

  -- steps 2 to 7: each may raise, and only the last two touch the row
  Wp-apply_config :
      (w y : Deployment) (device : Device) (desired : Fields) (ssh : SshDevice)
      → RowWp
          (apply_config env dev version user (some w) y.id device desired ssh)
          (Caught w y.id y.error_message)
          (some y)
  unfolding apply_config when_deployed After Handled assign
  Wp-apply_config w y device desired ssh =
      let z : Deployment = record y {
        logs =
            with_line y.logs (codes "Connecting via SSH as " ++ (env.ssh_username ++ codes "..."));
      } in
      let fail : (e : Exn) → Caught w z.id z.error_message (raised e) (some z) = raised_here w z in
      Wp-bind _ _ _ _ _ _ (
        Wp-append b ks dev distinct y _ _ (
          Wp-step _ _ _ _ _ (Silent-connect _ _ ssh) fail λ c. Wp-ensure w z _ _ _ (
            Wp-step _ _ _ _ _ (Silent-capture _ _ _) fail λ running.
              Wp-step _ _ _ _ _ (Calm-save_snapshot b ks dev env _ _ _ _) fail λ before.
                Wp-step _ _ _ _ _ (Quiet-lift _ _ _) fail λ cmds.
                  Wp-step _ _ _ _ _ (Silent-send_config_set _ _ _ _) fail λ applied.
                    Wp-ensure w z _ _ _ (
                      Wp-step _ _ _ _ _ (Silent-verify_all _ _ _ _ _) fail
                        λ vr. Wp-ensure w z _ _ _ (Wp-last_steps w z _ fail)))))

  Wp-ssh_deploy :
      (w y : Deployment) (device : Device) (desired : Fields)
      → RowWp
          (ssh_deploy env dev version user (some w) y.id device desired)
          (Recorded y.error_message)
          (some y)
  unfolding ssh_deploy ◌>>=◌ disconnect
  Wp-ssh_deploy w y device desired =
      Wp-try_finally _ _ _ _ _ (Wp-try_except _ _ _ _ _ _ (Wp-apply_config w y device desired _))

  Wp-deploy_desired :
      (w y : Deployment) (device : Device) (desired : Option Fields)
      → RowWp
          (deploy_desired env dev version user (some w) y.id device desired)
          (Recorded y.error_message)
          (some y)
  unfolding deploy_desired when_deployed After
  Wp-deploy_desired w y device none = Wp-early_failure w y _
  Wp-deploy_desired w y device (some end) = Wp-early_failure w y _
  Wp-deploy_desired w y device (some (field k v fs)) = Wp-bind _ _ _ _ _ _ (
      Wp-append b ks dev distinct y _ _ (
        Wp-if _ _ _ _ _ _ _ (Wp-dry_deploy w (record y { logs = _ }))
          (Wp-ssh_deploy w (record y { logs = _ }) device (field k v fs))))

  Wp-deploy_known :
      (w y : Deployment) (device : Option Device)
      → RowWp
          (deploy_known env dev version user (some w) y.id device)
          (Recorded y.error_message)
          (some y)
  unfolding deploy_known get_desired_config After
  Wp-deploy_known w y none = Wp-early_failure w y _
  Wp-deploy_known w y (some device) = Wp-bind _ _ _ _ _ _ (
      Wp-if _ _ _ _ _ _ _ (Wp-gets b ks dev _ _ _ (λ desired. Wp-deploy_desired w y device desired))
        (Wp-ret _ _ _ _ _ (Wp-deploy_desired w y device none)))

  -- Before it returns, a deployment writes how it ended into the row that it was started for.
  pub Wp-deploy_to_device :
      (x : Deployment)
      → RowWp (deploy_to_device env dev version user (some b)) (Recorded x.error_message) (some x)
  unfolding deploy_to_device get_deployment_for_batch_device deployment_id_of when_deployed
      get_device After assign
  Wp-deploy_to_device x = Wp-bind _ _ _ _ _ _ (
      Wp-find b ks dev _ _ (
        Wp-bind _ _ _ _ _ _ (
          Wp-ret _ _ _ _ _ (
            Wp-bind _ _ _ _ _ _ (
              Wp-update b ks dev distinct env x in_progress none none _ λ start end ended.
                Wp-bind _ _ _ _ _ _ (
                  Wp-gets b ks dev _ _ _ (λ device.
                    Wp-deploy_known x (assign in_progress start end none none x) device)))))))
