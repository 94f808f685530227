-- ===== src/Tests/Jobs.antt =====
-- A request for a deployment and the task that it starts, on the small database of Batches.
use netdeploy.Base.{
  ℕ, Bool, keep, ◌&&◌, ◌≡◌, ◌++◌, length, refl, true, false, List, [], ◌∷◌, Option, none, some, All,
  arith,
}
use netdeploy.Text.{Text, codes}
use netdeploy.Py.{ok}
use netdeploy.Db.{Deployment, rollback, find_device, find_in_batch}
use netdeploy.Db.Rows.{keys, Distinct}
use netdeploy.Proc.{State, Proc, ret, run}
use netdeploy.Orchestrator.{
  BatchResult, canary_done, deploy, deploy_rolling, all_deployed, rolled_back,
}
use netdeploy.Orchestrator.Total.{NoError, deploy-NoError}
use netdeploy.Orchestrator.Success.{Succeeded}
use netdeploy.Orchestrator.Success.Strategies.{deploy-Succeeded}
use netdeploy.Orchestrator.Untouched.{touched, deploy_rolling-untouched}
use netdeploy.Batches.{create_deployment_records}
use netdeploy.Batches.Created.{rows_from, with_rows, create-with_rows}
use netdeploy.Batches.Queued.{Fresh, Queued, create-Queued}
use netdeploy.Tasks.{TaskEnd, returned, finalize_batch_status, validate_and_deploy_task}
use netdeploy.Tasks.OnePass.{with_table, one_pass, finalize-one_pass}
use netdeploy.Tasks.Finished.{Over, validate_and_deploy-ends, validate_and_deploy-Over}
use netdeploy.Routes.Deployments.{DeployJob, RollbackJob, rollback_deployment}
use netdeploy.Routes.Views.{list_deployments}
use netdeploy.Routes.Lists.{Newest, FirstPart, has_status, list_deployments-FirstPart}
use netdeploy.Tests.Orderings.{by_insertion, by_insertion-OrderingLaws}
use netdeploy.Routes.Rollbacks.{RollbackEnd, rollback_deployment-RollbackEnd}
use netdeploy.Routes.Started.{Takes}
use netdeploy.Tests.Batches.{env, silent, start, queued_row}

-- Ten ids were drawn so far.
abbrev pub later : State
later = record start { db = record start.db { ids_drawn = 10 } }

later-Fresh : Fresh (env false) 10 (keys later.db)
later-Fresh = record { differ = λ i j e. e; unused = λ i le. ground (arith, le) }

later-Distinct : Distinct (keys later.db)
later-Distinct = (refl, (refl, tt))

queued_rows : All (Queued 7 later.db) (3 ∷ 4 ∷ [])
unfolding find_in_batch
queued_rows = ((queued_row 1 3, refl, refl, refl), ((queued_row 2 4, refl, refl, refl), tt))

-- Celery answers every job with the same id.
abbrev celery : DeployJob → Proc Text
celery job = ret (codes "task")

create-with_rows_example :
    run silent (create_deployment_records (env false) (3 ∷ 4 ∷ []) 10 "latest" "atomic") later ≡ (
      ok (rows_from (env false) 10 "latest" "atomic" (3 ∷ 4 ∷ []) 10 0),
      with_rows (env false) 10 "latest" "atomic" (3 ∷ 4 ∷ []) later,
    )
create-with_rows_example =
    create-with_rows (env false) 10 "latest" "atomic" silent (3 ∷ 4 ∷ []) later

create-Queued_example :
    let (o, s') =
      run silent (create_deployment_records (env false) (3 ∷ 4 ∷ []) 10 "latest" "atomic") later in
    Distinct (keys s'.db) × All (Queued 10 s'.db) (3 ∷ 4 ∷ [])
unfolding find_in_batch
create-Queued_example =
    create-Queued (env false) 10 "latest" "atomic" silent (3 ∷ 4 ∷ []) later later-Distinct
      later-Fresh (λ dev. refl)

finalize-one_pass_example :
    run silent (finalize_batch_status (env false) (some 7) (rolled_back 7 (3 ∷ []))) later ≡ (
      ok tt,
      with_table later (
          one_pass
            (env false)
            7
            rollback
            (codes "Atomic deployment failed; all devices rolled back")
            later.db.deployments
            0),
    )
unfolding netdeploy.Tasks.OnePass.left_status netdeploy.Tasks.OnePass.left_error
finalize-one_pass_example =
    finalize-one_pass (env false) silent 7 (rolled_back 7 (3 ∷ [])) later later-Distinct

validate_and_deploy-ends_example :
    (schedule : List ℕ) × (r : BatchResult) × (s' : State) × (validate_and_deploy_task
        (env false)
        silent
        schedule
        (3 ∷ 4 ∷ [])
        "latest"
        "canary"
        7
        (codes "ops")
        later
      ≡ some (returned r, s'))
    × All (Over 7 s'.db) (3 ∷ 4 ∷ [])
validate_and_deploy-ends_example =
    validate_and_deploy-ends (env false) silent 7 "latest" "canary" (codes "ops") (3 ∷ 4 ∷ []) later
      later-Distinct (refl, (refl, tt)) queued_rows

deploy-NoError_example :
    NoError (deploy (env false) silent "latest" 7 (codes "ops") "rolling" [] (3 ∷ 4 ∷ []) later)
deploy-NoError_example =
    deploy-NoError (env false) silent "latest" 7 (codes "ops") "rolling" [] (3 ∷ 4 ∷ []) later

validate_and_deploy-Over_example :
    let (schedule, r, s', done, over) =
      validate_and_deploy-ends
        (env false)
        silent
        7
        "latest"
        "atomic"
        (codes "ops")
        (3 ∷ 4 ∷ [])
        later
        later-Distinct
        (refl, (refl, tt))
        queued_rows in
    ((x : BatchResult) × (◌≡◌ {A = TaskEnd BatchResult} (returned r) (returned x)))
    × All (Over 7 s'.db) (3 ∷ 4 ∷ [])
validate_and_deploy-Over_example =
    let (schedule, r, s', done, over) =
      validate_and_deploy-ends (env false) silent 7 "latest" "atomic" (codes "ops") (3 ∷ 4 ∷ [])
        later later-Distinct (refl, (refl, tt)) queued_rows in
    validate_and_deploy-Over (env false) silent 7 "latest" "atomic" (codes "ops") (3 ∷ 4 ∷ []) later
      later-Distinct (refl, (refl, tt)) queued_rows schedule done

-- No configuration has that version, so the first device fails and the second keeps its row.
deploy_rolling-untouched_example :
    find_in_batch 7 4
      (run silent
        (deploy_rolling (env false) silent "a1b2" 7 (codes "ops") (3 ∷ 4 ∷ []))
        later).1.db
    ≡ find_in_batch 7 4 later.db
unfolding find_in_batch deploy_rolling run touched netdeploy.Proc.◌>>=◌ netdeploy.Orchestrator.roll
    netdeploy.Orchestrator.Device.deploy_to_device netdeploy.Orchestrator.after_deploy
    netdeploy.Orchestrator.Records.get_deployment_for_batch_device
    netdeploy.Orchestrator.Device.deployment_id_of netdeploy.Orchestrator.Device.when_deployed
    netdeploy.Orchestrator.Records.update_deployment_status netdeploy.Db.find_deployment
    netdeploy.Snapshots.utcnow netdeploy.Orchestrator.Records.get_device
    netdeploy.Orchestrator.Device.deploy_known find_device netdeploy.Db.modify_deployment
    netdeploy.Orchestrator.Records.get_desired_config netdeploy.Orchestrator.Device.deploy_desired
    netdeploy.Orchestrator.Device.early_failure netdeploy.Orchestrator.Records.assign
deploy_rolling-untouched_example =
    deploy_rolling-untouched (env false) silent 7 "a1b2" (codes "ops") 4 (3 ∷ 4 ∷ []) later
      later-Distinct ((queued_row 1 3, refl), ((queued_row 2 4, refl), tt)) refl

abbrev celery_rollback : RollbackJob → Proc Text
celery_rollback job = ret (codes "task")

celery_rollback-Takes : Takes silent celery_rollback
unfolding run
celery_rollback-Takes job s = (codes "task", refl)

-- A queued deployment cannot be rolled back.
rollback_deployment-RollbackEnd_example :
    RollbackEnd silent celery_rollback
      (codes "ops")
      1
      later
      (run silent (rollback_deployment celery_rollback (codes "ops") 1) later)
rollback_deployment-RollbackEnd_example =
    rollback_deployment-RollbackEnd silent celery_rollback (codes "ops") 1 celery_rollback-Takes
      later

list_deployments-FirstPart_example :
    (before shown after : List Deployment) × (run silent
        (list_deployments by_insertion 1 5 (some (codes "queued")))
        later
      ≡ (ok shown, later))
    × ((test : Deployment → Bool)
        → length (keep test (before ++ (shown ++ after)))
          ≡ length
              (keep (λ d. has_status (some (codes "queued")) d && test d) later.db.deployments))
    × Newest (λ d. d.created_at) (before ++ (shown ++ after))
    × FirstPart 1 before (shown ++ after)
    × FirstPart 5 shown after
list_deployments-FirstPart_example =
    list_deployments-FirstPart by_insertion by_insertion-OrderingLaws silent 1 5
      (some (codes "queued")) later

-- The state in which a run ended.
abbrev last_state : {A : Type 0} → Option (A × State) → State
last_state none = later
last_state (some (r, s)) = s

-- A dry run of a canary deployment to both devices.
abbrev dry_end : State
dry_end =
    last_state (deploy (env true) silent "latest" 7 (codes "ops") "canary" [] (3 ∷ 4 ∷ []) later)

deploy-Succeeded_example : All (Succeeded 7 dry_end) (3 ∷ 4 ∷ [])
unfolding find_in_batch netdeploy.Gather.gather netdeploy.Orchestrator.Device.deploy_to_device
    netdeploy.Proc.◌>>=◌ netdeploy.Orchestrator.Records.get_deployment_for_batch_device
    netdeploy.Orchestrator.Device.deployment_id_of netdeploy.Orchestrator.Device.when_deployed
    netdeploy.Orchestrator.Records.update_deployment_status netdeploy.Db.find_deployment
    netdeploy.Snapshots.utcnow netdeploy.Orchestrator.Records.get_device
    netdeploy.Orchestrator.Device.deploy_known find_device netdeploy.Db.modify_deployment
    netdeploy.Orchestrator.Records.get_desired_config netdeploy.Orchestrator.Device.deploy_desired
    netdeploy.Orchestrator.Records.latest_config netdeploy.Db.latest
    netdeploy.Orchestrator.Records.append_deployment_log netdeploy.Orchestrator.Device.dry_deploy
    netdeploy.Orchestrator.Records.assign netdeploy.Orchestrator.Records.write_audit
    netdeploy.Db.add_audit run netdeploy.Orchestrator.failures netdeploy.Orchestrator.has_failed
    deploy netdeploy.Orchestrator.deploy_canary netdeploy.Orchestrator.canary_stage
    netdeploy.Orchestrator.Device.health_check netdeploy.Orchestrator.status_of
deploy-Succeeded_example =
    deploy-Succeeded (env true) silent "latest" 7 (codes "ops") [] later later-Distinct "canary"
      (3 ∷ 4 ∷ []) dry_end (canary_done 7 (3 ∷ 4 ∷ []) 0) (refl, (refl, tt))
      ((queued_row 1 3, refl), ((queued_row 2 4, refl), tt)) refl refl
