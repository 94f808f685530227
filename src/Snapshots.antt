-- ===== src/Snapshots.antt =====
-- core/snapshot_manager.py: `SnapshotManager`, and the environment of the services: settings,
-- clock, fresh ids and the hash of a JSON document.
pub mod Restored
use netdeploy.Base.{
  ℕ, ◌+◌, Bool, true, false, not, ◌&&◌, List, [], ◌∷◌, Option, none, some, ◌==◌, keep,
  if◌then◌else◌,
}
use netdeploy.Text.{Text, codes, splitlines, strip, starts_with}
use netdeploy.Value.{Value, str, Fields, end, field, lookup, type_name}
use netdeploy.Py.{Py, ok, raised, attribute_error}
use netdeploy.Commands.{build}
use netdeploy.Db.{Db, ConfigSnapshot, earliest, add_snapshot}
use netdeploy.Proc.{Proc, ret, query, update, ◌>>=◌, ◌>>◌, try_except, attempt, lift, gets, modify}
use netdeploy.Ssh.{SshDevice, send_config_set, get_running_config}

pub record Env : Type 0 where
  pub dry_run : Bool
  pub ssh_username : Text
  -- the n-th reading of the clock, and the n-th id drawn
  pub now : ℕ → ℕ
  pub fresh : ℕ → ℕ
  -- SHA-256 of `json.dumps(config, sort_keys=True)`
  pub json_hash : Fields → Text

-- `datetime.utcnow()`
unfoldable pub utcnow : Env → Proc ℕ
utcnow env =
    query
      λ d. update (λ d. record d { clock_reads = d.clock_reads + 1 }) (ret (env.now d.clock_reads))

-- `uuid4()`
unfoldable pub uuid4 : Env → Proc ℕ
uuid4 env =
    query λ d. update (λ d. record d { ids_drawn = d.ids_drawn + 1 }) (ret (env.fresh d.ids_drawn))

unfoldable pub save_snapshot : Env → ℕ → ℕ → Fields → Bool → Proc (Option ℕ)
save_snapshot env deployment_id device_id config_data is_before = do
  id ← uuid4 env
  applied_at ← utcnow env
  modify (
      add_snapshot (record {
        id = id;
        deployment_id = deployment_id;
        device_id = device_id;
        config_before = if is_before then some config_data else none;
        config_after = if is_before then none else some config_data;
        applied_at = applied_at;
        snapshot_hash = env.json_hash config_data;
      }))
  ret (some id)

-- `{"raw": raw, "format": "text"}`
abbrev raw_config : Text → Fields
raw_config raw = field "raw" (str raw) (field "format" (str (codes "text")) end)

unfoldable pub captured : Py Text → Option Fields
captured (ok raw) = some (raw_config raw)
captured (raised e) = none

unfoldable pub capture_running_config : SshDevice → Proc (Option Fields)
unfolding captured
capture_running_config ssh = do raw ← attempt (get_running_config ssh); ret (captured raw)

is_filled : Text → Bool
is_filled [] = false
is_filled (c ∷ t) = true

-- the lines of a stored text that are sent back: no blank lines and no comments
unfoldable pub raw_lines : Text → List Text
unfolding is_filled
raw_lines raw =
    keep (λ line. is_filled (strip line) && not (starts_with (codes "!") (strip line)))
      (splitlines raw)

-- `config_before["raw"].splitlines()` of a value that may be no text
unfoldable pub lines_of : Value → Py (List Text)
lines_of (str raw) = ok (raw_lines raw)
lines_of v = raised (attribute_error (type_name v) "splitlines")

-- the commands that restore a configuration; an exception of `build` is caught on the spot
restore_built : SshDevice → Py (List Text) → Proc Bool
restore_built ssh (ok cmds) = try_except (send_config_set ssh cmds) (λ e. ret false)
restore_built ssh (raised e) = ret false

unfoldable pub restore_config : SshDevice → Fields → Option Value → Proc Bool
unfolding lines_of restore_built
restore_config ssh config (some raw) = do lines ← lift (lines_of raw); send_config_set ssh lines
restore_config ssh config none = restore_built ssh (build config ssh.target.device_type)

unfoldable pub restore_before : Option SshDevice → Option Fields → Proc Bool
unfolding restore_config
restore_before ssh none = ret false
restore_before ssh (some end) = ret false
restore_before none (some (field k v fs)) = ret false
restore_before (some ssh) (some (field k v fs)) =
    restore_config ssh (field k v fs) (lookup "raw" (field k v fs))

unfoldable pub config_before_of : Option ConfigSnapshot → Option Fields
config_before_of none = none
config_before_of (some s) = s.config_before

-- the first snapshot of a device within a deployment
unfoldable pub first_snapshot : ℕ → ℕ → Db → Option ConfigSnapshot
first_snapshot deployment_id device_id db =
    earliest (λ s. s.applied_at)
      (keep (λ s. (s.deployment_id == deployment_id) && (s.device_id == device_id)) db.snapshots)

unfoldable pub restore_snapshot : Option SshDevice → ℕ → ℕ → Proc Bool
unfolding restore_before config_before_of
restore_snapshot ssh deployment_id device_id =
    try_except
      (do
        snapshot ← gets (first_snapshot deployment_id device_id)
        restore_before ssh (config_before_of snapshot))
      (λ e. ret false)
