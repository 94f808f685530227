-- ===== src/Db.antt =====
-- api/models.py: the rows, and the database as the session sees it. An id is the number of its
-- UUID and a time is a number that grows; every statement is taken to succeed.
pub mod Rows
use netdeploy.Base.{
  ℕ, zero, suc, ◌+◌, String, Bool, true, false, List, [], ◌∷◌, ◌++◌, map, Option, none, some, ltb,
  ◌==◌, find?, if◌then◌else◌, ◌&&◌,
}
use netdeploy.Text.{Text}
use netdeploy.Value.{Fields}

pub record Device : Type 0 where
  pub id : ℕ
  pub hostname : Text
  pub device_type : String
  pub management_ip : Text
  pub ssh_port : ℕ
  pub bgp_asn : Option ℕ
  pub ospf_area : Option Text
  pub os_version : Option Text

pub record Configuration : Type 0 where
  pub id : ℕ
  pub device_id : ℕ
  pub version : String
  pub desired_state : Fields
  pub status : String
  pub created_by : Text
  pub created_at : ℕ

-- the strings of `Deployment.status`
pub data Status : Type 0 where
  queued in_progress success rollback failed : Status

pub record Deployment : Type 0 where
  pub id : ℕ
  pub batch_id : ℕ
  pub device_id : ℕ
  pub config_version : String
  pub status : Status
  pub start_time : Option ℕ
  pub end_time : Option ℕ
  pub error_message : Option Text
  pub logs : Option Text
  pub strategy : String
  pub created_at : ℕ

pub record AuditLog : Type 0 where
  pub user_id : Text
  pub action : String
  pub resource_type : String
  pub resource_id : ℕ
  pub details : Fields
  pub ip_address : Option Text

pub record ConfigSnapshot : Type 0 where
  pub id : ℕ
  pub deployment_id : ℕ
  pub device_id : ℕ
  pub config_before : Option Fields
  pub config_after : Option Fields
  pub applied_at : ℕ
  pub snapshot_hash : Text

-- The tables, the number of times that the clock was read, and the number of ids that were drawn.
pub record Db : Type 0 where
  pub devices : List Device
  pub configurations : List Configuration
  pub deployments : List Deployment
  pub audit_logs : List AuditLog
  pub snapshots : List ConfigSnapshot
  pub clock_reads : ℕ
  pub ids_drawn : ℕ

-- `.order_by(key.desc()).first()`: a row with the largest key, the first of them
newer {ℓ} : {A : Type ℓ} → (A → ℕ) → A → Option A → Option A
newer key a none = some a
newer key a (some b) = if ltb (key a) (key b) then some b else some a

unfoldable pub latest {ℓ} : {A : Type ℓ} → (A → ℕ) → List A → Option A
unfolding newer
latest key [] = none
latest key (a ∷ xs) = newer key a (latest key xs)

-- `.order_by(key.asc()).first()`
unfoldable pub older {ℓ} : {A : Type ℓ} → (A → ℕ) → A → Option A → Option A
older key a none = some a
older key a (some b) = if ltb (key b) (key a) then some b else some a

unfoldable pub earliest {ℓ} : {A : Type ℓ} → (A → ℕ) → List A → Option A
unfolding older
earliest key [] = none
earliest key (a ∷ xs) = older key a (earliest key xs)

unfoldable pub find_device : ℕ → Db → Option Device
find_device id db = find? (λ d. d.id == id) db.devices

unfoldable pub find_deployment : ℕ → Db → Option Deployment
find_deployment id db = find? (λ d. d.id == id) db.deployments

-- An assignment to the attributes of the row that `find_deployment` finds.
unfoldable pub modify_first : ℕ → (Deployment → Deployment) → List Deployment → List Deployment
modify_first id f [] = []
modify_first id f (d ∷ ds) = if d.id == id then f d ∷ ds else d ∷ modify_first id f ds

unfoldable pub modify_deployment : ℕ → (Deployment → Deployment) → Db → Db
unfolding modify_first
modify_deployment id f db = record db { deployments = modify_first id f db.deployments }

-- `db.add` of a new row
unfoldable pub add_deployment : Deployment → Db → Db
add_deployment d db = record db { deployments = db.deployments ++ (d ∷ []) }

unfoldable pub add_audit : AuditLog → Db → Db
add_audit a db = record db { audit_logs = db.audit_logs ++ (a ∷ []) }

unfoldable pub add_snapshot : ConfigSnapshot → Db → Db
add_snapshot s db = record db { snapshots = db.snapshots ++ (s ∷ []) }

-- the row of a device within a batch
unfoldable pub find_in_batch : ℕ → ℕ → Db → Option Deployment
find_in_batch batch_id device_id db =
    find? (λ d. (d.batch_id == batch_id) && (d.device_id == device_id)) db.deployments
