-- ===== src/Tests/Parallel.antt =====
-- Two deployments that run in parallel.
use netdeploy.Base.{ℕ, ◌≡◌, refl, false, List, [], ◌∷◌, map, Option, none, some, get_elem?}
use netdeploy.Text.{codes}
use netdeploy.Py.{Py}
use netdeploy.Db.{find_in_batch}
use netdeploy.Proc.{State, Proc}
use netdeploy.Gather.{gather}
use netdeploy.Orchestrator.Device.{DeviceResult, deploy_to_device}
use netdeploy.Orchestrator.Outcome.{Recorded}
use netdeploy.Orchestrator.Parallel.{gather-Recorded}
use netdeploy.Tests.Batches.{env, silent, start, queued_row}

abbrev deployments : List (Proc DeviceResult)
deployments = map (λ j. deploy_to_device (env false) j "latest" (codes "ops") (some 7)) (3 ∷ 4 ∷ [])

-- The replies arrive by turns.
abbrev schedule : List ℕ
schedule = 1 ∷ 0 ∷ 1 ∷ 0 ∷ 1 ∷ 0 ∷ 1 ∷ 0 ∷ 1 ∷ 0 ∷ 1 ∷ 0 ∷ 1 ∷ 0 ∷ 1 ∷ 0 ∷ 1 ∷ 0 ∷ []

abbrev ended : Option (List (Py DeviceResult) × State) → List (Py DeviceResult) × State
ended none = ([], start)
ended (some r) = r

abbrev finish : List (Py DeviceResult) × State
finish = ended (gather silent schedule deployments start)

gather-Recorded_example :
    (o : Py DeviceResult) × (get_elem? finish.0 1 ≡ some o)
    × Recorded none o (find_in_batch 7 4 finish.1.db)
unfolding gather find_in_batch deploy_to_device netdeploy.Proc.◌>>=◌
    netdeploy.Orchestrator.Records.get_deployment_for_batch_device
    netdeploy.Orchestrator.Device.deployment_id_of netdeploy.Orchestrator.Device.when_deployed
    netdeploy.Orchestrator.Records.update_deployment_status netdeploy.Db.find_deployment
    netdeploy.Snapshots.utcnow netdeploy.Orchestrator.Records.get_device
    netdeploy.Orchestrator.Device.deploy_known netdeploy.Db.find_device
    netdeploy.Db.modify_deployment netdeploy.Orchestrator.Records.get_desired_config
    netdeploy.Orchestrator.Device.deploy_desired netdeploy.Orchestrator.Records.latest_config
    netdeploy.Db.latest netdeploy.Orchestrator.Records.append_deployment_log
    netdeploy.Orchestrator.Device.dry_deploy netdeploy.Orchestrator.Records.write_audit
    netdeploy.Db.add_audit netdeploy.Orchestrator.Records.desired_of
    netdeploy.Orchestrator.Device.ssh_deploy netdeploy.Orchestrator.Device.apply_config
    netdeploy.Orchestrator.Device.last_steps netdeploy.Orchestrator.Device.on_failure
    netdeploy.Orchestrator.Device.ensure netdeploy.Snapshots.save_snapshot netdeploy.Snapshots.uuid4
    netdeploy.Snapshots.capture_running_config netdeploy.Snapshots.captured netdeploy.Ssh.connect
    netdeploy.Ssh.send_config_set netdeploy.Ssh.get_running_config netdeploy.Ssh.disconnect
    netdeploy.Proc.try_except netdeploy.Proc.try_finally netdeploy.Proc.attempt
    netdeploy.Orchestrator.Records.start_time_for netdeploy.Orchestrator.Records.end_time_for
    netdeploy.Orchestrator.Records.update_found netdeploy.Orchestrator.Records.assign
    netdeploy.Gather.settle netdeploy.Gather.start_all netdeploy.Gather.follow
    netdeploy.Gather.resume_at netdeploy.Gather.resume netdeploy.Gather.outcomes
    netdeploy.Verifier.verify_all netdeploy.Verifier.verify_section
    netdeploy.Verifier.verify_bgp_neighbors netdeploy.Verifier.bgp_checks
    netdeploy.Verifier.add_checks netdeploy.Ssh.send_command netdeploy.Ssh.is_clean
    netdeploy.Ssh.applied netdeploy.Ssh.connected netdeploy.Commands.build netdeploy.Commands.vendor
    netdeploy.Commands.bgp_commands netdeploy.Commands.Ios.bgp_commands_cisco_ios
    netdeploy.Commands.Lines.each_of netdeploy.Py.◌>>=◌ netdeploy.Py.get netdeploy.Py.iterate
    netdeploy.Value.items_list netdeploy.Value.lookup netdeploy.Text.contains_text
    netdeploy.Text.lower netdeploy.Ssh.running_config_command netdeploy.Ssh.bgp_show_command
    netdeploy.Db.add_snapshot
gather-Recorded_example =
    gather-Recorded (env false) silent schedule 7 "latest" (codes "ops") start 1 (3 ∷ 4 ∷ []) 4
      (queued_row 2 4) finish.0 finish.1 (refl, (refl, tt)) refl
      ((refl, (queued_row 1 3, refl)), (refl, tt)) refl
