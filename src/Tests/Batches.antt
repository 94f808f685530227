-- ===== src/Tests/Batches.antt =====
-- Runs of the orchestrator on a small database: two devices, each with a configuration and with
-- a queued row in batch 7.
use netdeploy.Base.{ℕ, ◌≡◌, refl, Bool, true, false, [], ◌∷◌, ◌++◌, none, some, pos, all, arith}
use netdeploy.Text.{codes}
use netdeploy.Value.{int, obj, end, field}
use netdeploy.Py.{Py, ok}
use netdeploy.Db.{Device, Configuration, ConfigSnapshot, Deployment, queued, find_in_batch}
use netdeploy.Db.Rows.{keys}
use netdeploy.Proc.{Target, open_session, show, configure, State, Net, sent, run}
use netdeploy.Snapshots.{Env, raw_lines, restore_snapshot}
use netdeploy.Snapshots.Restored.{backup, restore_snapshot-backup}
use netdeploy.Orchestrator.{BatchResult, deploy, deploy_rolling, rollback_all}
use netdeploy.Orchestrator.Device.{deploy_to_device}
use netdeploy.Orchestrator.Outcome.{Recorded}
use netdeploy.Orchestrator.Ends.{deploy_to_device-Recorded}
use netdeploy.Orchestrator.DryRun.{deploy-dry_run, deploy-other_version}
use netdeploy.Orchestrator.Rolling.{RollingEnd, deploy_rolling-RollingEnd}
use netdeploy.Orchestrator.Rollback.{known, with_entries, rollback_all-writes_audit}

abbrev pub device : ℕ → Device
device i = record {
  id = i;
  hostname = codes "edge";
  device_type = "cisco_ios";
  management_ip = codes "10.0.0.1";
  ssh_port = 22;
  bgp_asn = none;
  ospf_area = none;
  os_version = none;
}

abbrev configuration : ℕ → Configuration
configuration i = record {
  id = i;
  device_id = i;
  version = "a1b2";
  desired_state = field "bgp" (obj (field "local_asn" (int (pos 65001)) end)) end;
  status = "PENDING";
  created_by = codes "ops";
  created_at = i;
}

abbrev pub queued_row : ℕ → ℕ → Deployment
queued_row i dev = record {
  id = i;
  batch_id = 7;
  device_id = dev;
  config_version = "latest";
  status = queued;
  start_time = none;
  end_time = none;
  error_message = none;
  logs = none;
  strategy = "rolling";
  created_at = 0;
}

abbrev pub start : State
start = record {
  db = record {
    devices = device 3 ∷ device 4 ∷ [];
    configurations = configuration 3 ∷ configuration 4 ∷ [];
    deployments = queued_row 1 3 ∷ queued_row 2 4 ∷ [];
    audit_logs = [];
    snapshots = [];
    clock_reads = 0;
    ids_drawn = 0;
  };
  wire = [];
}

abbrev pub env : Bool → Env
env dry = record {
  dry_run = dry;
  ssh_username = codes "admin";
  now = λ n. n;
  fresh = λ n. n;
  json_hash = λ fs. codes "hash";
}

-- Every device answers with an empty line.
abbrev pub silent : Net
silent w c = ok (codes "\n")

deploy_to_device-Recorded_example :
    let (o, s') =
      run silent (deploy_to_device (env false) 3 "latest" (codes "ops") (some 7)) start in
    (keys s'.db ≡ keys start.db) × Recorded none o (find_in_batch 7 3 s'.db)
unfolding find_in_batch
deploy_to_device-Recorded_example =
    deploy_to_device-Recorded (env false) silent 7 3 "latest" (codes "ops") start (queued_row 1 3)
      (refl, (refl, tt)) refl

deploy-dry_run_example :
    (r : Py BatchResult) × (s' : State) × (deploy
        (env true)
        silent
        "latest"
        7
        (codes "ops")
        "atomic"
        []
        (3 ∷ 4 ∷ [])
        start
      ≡ some (r, s'))
    × (s'.wire ≡ [])
deploy-dry_run_example =
    deploy-dry_run (env true) silent "latest" 7 (codes "ops") "atomic" [] (3 ∷ 4 ∷ []) start refl

deploy-other_version_example :
    (r : Py BatchResult) × (s' : State) × (deploy
        (env false)
        silent
        "a1b2"
        7
        (codes "ops")
        "canary"
        []
        (3 ∷ 4 ∷ [])
        start
      ≡ some (r, s'))
    × (s'.wire ≡ [])
deploy-other_version_example =
    deploy-other_version (env false) silent "a1b2" 7 (codes "ops") "canary" [] (3 ∷ 4 ∷ []) start
      refl

rollback_all-writes_audit_example :
    run silent (rollback_all (3 ∷ 5 ∷ []) (codes "ops")) start
    ≡ (ok (all (known start.db) (3 ∷ 5 ∷ [])), with_entries (codes "ops") (3 ∷ 5 ∷ []) start)
rollback_all-writes_audit_example =
    rollback_all-writes_audit silent (3 ∷ 5 ∷ []) (codes "ops") start

deploy_rolling-RollingEnd_example :
    RollingEnd 7
      (3 ∷ 4 ∷ [])
      (run silent (deploy_rolling (env false) silent "latest" 7 (codes "ops") (3 ∷ 4 ∷ [])) start)
unfolding find_in_batch
deploy_rolling-RollingEnd_example =
    deploy_rolling-RollingEnd (env false) silent 7 "latest" (codes "ops") (3 ∷ 4 ∷ []) start
      (refl, (refl, tt)) (refl, (refl, tt)) ((queued_row 1 3, refl), ((queued_row 2 4, refl), tt))

abbrev edge : Target
edge = record {
  hostname = codes "edge";
  ip = codes "10.0.0.1";
  device_type = "cisco_ios";
  port = 22;
}

-- The device shows its configuration and accepts what it is sent.
abbrev talking : Net
talking w (show t cmd) = ok (codes "!\nhostname edge\n")
talking w (configure t cmds) = ok []
talking w (open_session t) = ok []

abbrev after_snapshot : ConfigSnapshot
after_snapshot = record {
  id = 9;
  deployment_id = 1;
  device_id = 3;
  config_before = none;
  config_after = some end;
  applied_at = 1;
  snapshot_hash = codes "hash";
}

abbrev backed_up : State
backed_up =
    let s = (run talking (backup talking (env false) edge 1 3) start).1 in
    record s { db = record s.db { snapshots = s.db.snapshots ++ (after_snapshot ∷ []) } }

restore_snapshot-backup_example :
    run talking (restore_snapshot (some (record { target = edge; is_open = true })) 1 3) backed_up
    ≡ (ok true, sent (configure edge (codes "hostname edge" ∷ [])) (ok []) backed_up)
unfolding raw_lines netdeploy.Ssh.is_clean netdeploy.Text.splitlines netdeploy.Text.contains_text
    netdeploy.Text.strip
restore_snapshot-backup_example =
    restore_snapshot-backup talking (env false) edge 1 3 start (after_snapshot ∷ []) backed_up tt
      refl (omega arith, tt)
