-- ===== src/Routes/Views.antt =====
-- api/routes/deployments.py: the views of batches, logs, lists and snapshots. An offset and a limit
-- are natural numbers.
use netdeploy.Base.{
  ℕ, Bool, true, false, not, ◌&&◌, List, [], ◌∷◌, map, length, Option, none, some, ◌==◌, keep,
}
use netdeploy.Text.{Text, codes, splitlines, strip, text_eq, upper}
use netdeploy.Value.{Fields}
use netdeploy.Db.{Db, Deployment, ConfigSnapshot, Status, find_deployment}
use netdeploy.Proc.{Proc, gets}
use netdeploy.Routes.{message, Reply, reply, refused, page, Ordering}
use netdeploy.Routes.Deployments.{status_text}

-- `get_batch`: the rows of the batch, or 404 if there are none
unfoldable pub batch_reply : List Deployment → Reply (ℕ × List Deployment)
batch_reply [] = refused 404 (message (codes "Batch not found"))
batch_reply (d ∷ ds) = reply (length (d ∷ ds), d ∷ ds)

unfoldable pub get_batch : ℕ → Proc (Reply (ℕ × List Deployment))
unfolding batch_reply
get_batch batch_id = gets (λ db. batch_reply (keep (λ d. d.batch_id == batch_id) db.deployments))

is_blank : Text → Bool
is_blank [] = true
is_blank (c ∷ t) = false

-- `deployment.logs or ""`
raw_logs : Option Text → Text
raw_logs none = []
raw_logs (some t) = t

-- the status, the lines that are not blank, how many they are, and the two times
unfoldable pub logs_of : Deployment → Status × List Text × ℕ × Option ℕ × Option ℕ
unfolding is_blank raw_logs
logs_of d =
    let lines = keep (λ line. not (is_blank (strip line))) (splitlines (raw_logs d.logs)) in
    (d.status, lines, length lines, d.start_time, d.end_time)

logs_reply : Option Deployment → Reply (Status × List Text × ℕ × Option ℕ × Option ℕ)
logs_reply none = refused 404 (message (codes "Deployment not found"))
logs_reply (some d) = reply (logs_of d)

unfoldable pub get_deployment_logs : ℕ → Proc (Reply (Status × List Text × ℕ × Option ℕ × Option ℕ))
unfolding logs_reply
get_deployment_logs deployment_id = gets (λ db. logs_reply (find_deployment deployment_id db))

-- the rows of a status that is given in any case, if it is given and not empty
unfoldable pub of_status : Option Text → List Deployment → List Deployment
of_status none ds = ds
of_status (some []) ds = ds
of_status (some (c ∷ t)) ds = keep (λ d. text_eq (status_text d.status) (upper (c ∷ t))) ds

unfoldable pub list_deployments : Ordering → ℕ → ℕ → Option Text → Proc (List Deployment)
unfolding of_status
list_deployments order skip limit status =
    gets
      (λ db. page skip limit (order.newest (λ d. d.created_at) (of_status status db.deployments)))

-- `config_before is not None`
is_before : Option Fields → Bool
is_before none = false
is_before (some config) = true

-- One row of the view of snapshots: its id, its device, whether it is from before, its hash and
-- its time, which every row has.
snapshot_row : ConfigSnapshot → ℕ × ℕ × Bool × Text × ℕ
unfolding is_before
snapshot_row s = (s.id, s.device_id, is_before s.config_before, s.snapshot_hash, s.applied_at)

snapshots_of : ℕ → Option ℕ → Db → List ConfigSnapshot
snapshots_of deployment_id none db = keep (λ s. s.deployment_id == deployment_id) db.snapshots
snapshots_of deployment_id (some device_id) db =
    keep (λ s. (s.deployment_id == deployment_id) && (s.device_id == device_id)) db.snapshots

snapshots_reply :
    Ordering → ℕ → Option ℕ → Db → Option Deployment → Reply (List (ℕ × ℕ × Bool × Text × ℕ))
unfolding snapshot_row snapshots_of
snapshots_reply order deployment_id device_id db none =
    refused 404 (message (codes "Deployment not found"))
snapshots_reply order deployment_id device_id db (some d) =
    reply (
      map snapshot_row (order.oldest (λ s. s.applied_at) (snapshots_of deployment_id device_id db)))

-- `get_deployment_snapshot`, without the diff, which rests on difflib
unfoldable pub get_deployment_snapshot :
    Ordering → ℕ → Option ℕ → Proc (Reply (List (ℕ × ℕ × Bool × Text × ℕ)))
unfolding snapshots_reply
get_deployment_snapshot order deployment_id device_id =
    gets (λ db. snapshots_reply order deployment_id device_id db (find_deployment deployment_id db))
