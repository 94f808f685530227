-- ===== src/Orchestrator/Total.antt =====
-- core/orchestrator.py: a deployment returns a result dict whatever happens; it never raises.
use netdeploy.Base.{
  ℕ, String, ◌≡◌, refl, ap, Bool, true, false, List, [], ◌∷◌, ◌++◌, Option, none, some, str_eq,
  if◌then◌else◌,
}
use netdeploy.Text.{Text}
use netdeploy.Value.{Fields, end, field}
use netdeploy.Py.{Py, Exn, ok, raised}
use netdeploy.Db.{Device, Deployment, Status, in_progress, find_deployment}
use netdeploy.Proc.{State, Proc, ◌>>=◌, Net, run}
use netdeploy.Proc.Total.{
  Total, total_ret, total_query, total_update, Total-bind, Total-try_except, Total-try_finally,
  Total-attempt, Total-if, Total-gets, Total-modify, run-Total,
}
use netdeploy.Snapshots.{Env, utcnow, uuid4}
use netdeploy.Ssh.{disconnect}
use netdeploy.Orchestrator.{
  BatchResult, roll, deploy_rolling, after_deploy, after_health, rollback_all, atomic_verdict,
  canary_stage, judge_canary, judge_health, deploy, deploy_atomic, deploy_canary, after_atomic,
  after_rest, after_canary,
}
use netdeploy.Orchestrator.Records.{
  is_terminal, get_device, get_desired_config, get_deployment_for_batch_device, start_time_for,
  end_time_for, update_found, update_deployment_status, append_deployment_log, write_audit,
}
use netdeploy.Orchestrator.Device.{
  DeviceResult, early_failure, dry_deploy, on_failure, ssh_deploy, deploy_desired, deploy_known,
  deploy_to_device, when_deployed, deployment_id_of, health_check, health_of, rollback_device,
  rollback_known,
}

pub Total-utcnow : (env : Env) → Total (utcnow env)
unfolding utcnow
Total-utcnow env = total_query _ (λ d. total_update _ _ (total_ret _))

Total-uuid4 : (env : Env) → Total (uuid4 env)
unfolding uuid4
Total-uuid4 env = total_query _ (λ d. total_update _ _ (total_ret _))

Total-write_audit :
    (user : Text) (action : String) (id : ℕ) (details : Fields)
    → Total (write_audit user action id details)
unfolding write_audit
Total-write_audit user action id details = Total-modify _

Total-append : (id : ℕ) (line : Text) → Total (append_deployment_log id line)
unfolding append_deployment_log
Total-append id line = Total-modify _

Total-start_time : (env : Env) (st : Status) (old : Option ℕ) → Total (start_time_for env st old)
unfolding start_time_for
Total-start_time env in_progress none = Total-bind _ (Total-utcnow env) λ t. total_ret _
Total-start_time env _ old = total_ret old

Total-end_time : (env : Env) (st : Status) (old : Option ℕ) → Total (end_time_for env st old)
unfolding end_time_for
Total-end_time env st old =
    Total-if (is_terminal st) (Total-bind _ (Total-utcnow env) λ t. total_ret _) (total_ret old)

Total-status :
    (env : Env) (id : ℕ) (st : Status) (err logs : Option Text)
    → Total (update_deployment_status env id st err logs)
unfolding update_deployment_status update_found
Total-status env id st err logs = Total-bind _ (Total-gets (find_deployment id)) found
  where
    found : (d : Option Deployment) → Total (update_found env id st err logs d)
    found none = total_ret tt
    found (some d) =
        Total-bind _ (Total-start_time env st d.start_time)
          λ start. Total-bind _ (Total-end_time env st d.end_time) λ end. Total-modify _

Total-when : (d : Option Deployment) (p : Proc (Unit {0})) → Total p → Total (when_deployed d p)
unfolding when_deployed
Total-when none p h = total_ret tt
Total-when (some d) p h = h

pub Total-rollback_device : (id : ℕ) (user : Text) → Total (rollback_device id user)
unfolding rollback_device get_device rollback_known
Total-rollback_device id user = Total-bind _ (Total-gets _) known
  where
    known : (d : Option Device) → Total (rollback_known id user d)
    known none = total_ret false
    known (some d) = Total-bind _ (Total-write_audit _ _ _ _) λ u. total_ret true

Total-health_check : (id : ℕ) → Total (health_check id)
unfolding health_check get_device health_of get_desired_config
Total-health_check id = Total-bind _ (Total-gets _) known
  where
    known : (d : Option Device) → Total (health_of id d)
    known none = total_ret false
    known (some d) = Total-bind _ (Total-gets _) λ config. total_ret true

pub Total-rollback_all : (ids : List ℕ) (user : Text) → Total (rollback_all ids user)
unfolding rollback_all
Total-rollback_all [] user = total_ret true
Total-rollback_all (id ∷ ids) user =
    Total-bind _ (Total-attempt (rollback_device id user))
      λ r. Total-bind _ (Total-rollback_all ids user) λ rest. total_ret _

module _ (env : Env) (dev : ℕ) (version : String) (user : Text) where
  Total-early :
      (d : Option Deployment) (i : ℕ) (err : Text)
      → Total (early_failure env dev version user d i err)
  unfolding early_failure
  Total-early d i err = Total-bind _ (Total-when d _ (Total-status env i _ _ _)) λ u. total_ret _

  Total-dry : (d : Option Deployment) (i : ℕ) → Total (dry_deploy env dev version user d i)
  unfolding dry_deploy
  Total-dry d i =
      Total-bind _ (Total-when d _ (Total-bind _ (Total-append i _) λ u. Total-status env i _ _ _))
        λ u. Total-bind _ (Total-write_audit _ _ _ _) λ v. total_ret _

  Total-on_failure :
      (d : Option Deployment) (i : ℕ) (e : Exn) → Total (on_failure env dev version user d i e)
  unfolding on_failure
  Total-on_failure d i e = Total-bind _ (Total-when d _ (Total-append i _)) λ u.
      Total-bind _ (Total-rollback_device dev user)
        λ r. Total-bind _ (Total-status env i _ _ _) λ v. total_ret _

  Total-ssh_deploy :
      (d : Option Deployment) (i : ℕ) (device : Device) (desired : Fields)
      → Total (ssh_deploy env dev version user d i device desired)
  unfolding ssh_deploy disconnect ◌>>=◌
  Total-ssh_deploy d i device desired =
      Total-try_finally _ (Total-try_except _ _ (Total-on_failure d i)) (total_ret tt)

  Total-desired :
      (d : Option Deployment) (i : ℕ) (device : Device) (desired : Option Fields)
      → Total (deploy_desired env dev version user d i device desired)
  unfolding deploy_desired
  Total-desired d i device none = Total-early d i _
  Total-desired d i device (some end) = Total-early d i _
  Total-desired d i device (some (field k v fs)) =
      Total-bind _ (Total-when d _ (Total-append i _))
        λ u. Total-if env.dry_run (Total-dry d i) (Total-ssh_deploy d i device (field k v fs))

  Total-known :
      (d : Option Deployment) (i : ℕ) (device : Option Device)
      → Total (deploy_known env dev version user d i device)
  unfolding deploy_known get_desired_config
  Total-known d i none = Total-early d i _
  Total-known d i (some device) =
      Total-bind _ (Total-if (str_eq version "latest") (Total-gets _) (total_ret none))
        (Total-desired d i device)

  Total-row : (batch : Option ℕ) → Total (get_deployment_for_batch_device batch dev)
  unfolding get_deployment_for_batch_device
  Total-row none = total_ret none
  Total-row (some b) = Total-gets _

  Total-id : (d : Option Deployment) → Total (deployment_id_of env d)
  unfolding deployment_id_of
  Total-id none = Total-uuid4 env
  Total-id (some d) = total_ret d.id

  pub Total-deploy_to_device :
      (batch : Option ℕ) → Total (deploy_to_device env dev version user batch)
  unfolding deploy_to_device get_device
  Total-deploy_to_device batch = Total-bind _ (Total-row batch) λ d. Total-bind _ (Total-id d) λ i.
      Total-bind _ (Total-when d _ (Total-status env i _ _ _))
        λ u. Total-bind _ (Total-gets _) (Total-known d i)

-- Where all tasks end, a batch returns a result.
abbrev pub NoError : {A : Type 0} → Option (Py A × State) → Type 0
NoError none = Unit
NoError {A} (some (o, s)) = (a : A) × (o ≡ ok a)

module _ (env : Env) (net : Net) (version : String) (b : ℕ) (user : Text) where
  Total-after_deploy :
      (id : ℕ) (completed : List ℕ) (next : Proc BatchResult) (r : DeviceResult)
      → Total next
      → Total (after_deploy env net version b user id completed next r)
  unfolding after_deploy after_health
  Total-after_deploy id completed next r rest =
      Total-if r.success (Total-bind _ (Total-health_check id) judged) (total_ret _)
    where
      judged :
          (healthy : Bool)
          → Total (after_health env net version b user id (completed ++ (id ∷ [])) next healthy)
      judged true = rest
      judged false = total_ret _

  Total-roll : (all done ids : List ℕ) → Total (roll env net version b user all done ids)
  unfolding roll
  Total-roll all done [] = total_ret _
  Total-roll all done (id ∷ ids) =
      Total-bind _ (Total-deploy_to_device env id version user (some b))
        λ r. Total-after_deploy id done _ r (Total-roll all (done ++ (id ∷ [])) ids)

  Total-verdict :
      (ids failed_ids : List ℕ) → Total (atomic_verdict env net version b user ids failed_ids)
  unfolding atomic_verdict
  Total-verdict ids [] = total_ret _
  Total-verdict ids (id ∷ rest) = Total-bind _ (Total-rollback_all ids user) λ r. total_ret _

  Total-canary_stage : (id : ℕ) → Total (canary_stage env net version b user id)
  unfolding canary_stage judge_canary judge_health
  Total-canary_stage id =
      Total-bind _ (Total-deploy_to_device env id version user (some b))
        λ r. Total-if r.success (Total-bind _ (Total-health_check id) judged) (total_ret _)
    where
      judged : (healthy : Bool) → Total (judge_health env net version b user id healthy)
      judged true = total_ret none
      judged false = Total-bind _ (Total-rollback_device id user) λ r. total_ret _

  run-NoError : {A : Type 0} {p : Proc A} (s : State) → Total p → (a : A) × ((run net p s).0 ≡ ok a)
  run-NoError s t = let (a, s', e) = run-Total net s t in (a, ap (λ q. q.0) e)

  after_atomic-NoError :
      (ids : List ℕ) (o : Option (List (Py DeviceResult) × State))
      → NoError (after_atomic env net version b user ids o)
  unfolding after_atomic
  after_atomic-NoError ids none = tt
  after_atomic-NoError ids (some (os, s)) = run-NoError s (Total-verdict ids _)

  after_rest-NoError :
      (ids : List ℕ) (o : Option (List (Py DeviceResult) × State))
      → NoError (after_rest env net version b user ids o)
  unfolding after_rest
  after_rest-NoError ids none = tt
  after_rest-NoError ids (some (os, s)) = (_, refl)

  after_canary-NoError :
      (schedule : List ℕ) (id : ℕ) (rest : List ℕ) (first : Py (Option BatchResult) × State)
      → ((a : Option BatchResult) × (first.0 ≡ ok a))
      → NoError (after_canary env net version b user schedule id rest first)
  unfolding after_canary
  after_canary-NoError schedule id rest (raised e, s) (a, h) = cc
  after_canary-NoError schedule id rest (ok (some r), s) h = (r, refl)
  after_canary-NoError schedule id rest (ok none, s) h = after_rest-NoError (id ∷ rest) _

  deploy_canary-NoError :
      (schedule ids : List ℕ) (s : State)
      → NoError (deploy_canary env net version b user schedule ids s)
  unfolding deploy_canary
  deploy_canary-NoError schedule [] s = (_, refl)
  deploy_canary-NoError schedule (id ∷ rest) s =
      after_canary-NoError schedule id rest _ (run-NoError s (Total-canary_stage id))

  -- the branches of `deploy`
  branch-NoError :
      (canary rolling atomic : Bool) (schedule ids : List ℕ) (s : State) (other : BatchResult)
      → NoError (
          if canary
          then deploy_canary env net version b user schedule ids s
          else if rolling
          then some (run net (deploy_rolling env net version b user ids) s)
          else if atomic
          then deploy_atomic env net version b user schedule ids s
          else some (ok other, s))
  unfolding deploy_atomic deploy_rolling
  branch-NoError true rolling atomic schedule ids s other = deploy_canary-NoError schedule ids s
  branch-NoError false true atomic schedule ids s other = run-NoError s (Total-roll ids [] ids)
  branch-NoError false false true schedule ids s other = after_atomic-NoError ids _
  branch-NoError false false false schedule ids s other = (other, refl)

  -- Under every schedule that lets all tasks end, a batch of any strategy returns a result and
  -- raises nothing, whatever the database holds and whatever the devices answer or raise.
  pub deploy-NoError :
      (strategy : String) (schedule ids : List ℕ) (s : State)
      → NoError (deploy env net version b user strategy schedule ids s)
  unfolding deploy
  deploy-NoError strategy schedule ids s = branch-NoError _ _ _ schedule ids s _
