-- ===== src/Orchestrator/Rollback.antt =====
-- core/orchestrator.py: what `_rollback_all` does.
use netdeploy.Base.{
  ℕ, ◌≡◌, refl, ap, Bool, true, false, List, [], ◌∷◌, ◌++◌, Option, none, some, all, keep,
  Bool-cases, inl, inr, map,
}
use mathlib.Core.List.{append-nil, append_assoc}
use netdeploy.Text.{Text, codes}
use netdeploy.Value.{str, end, field}
use netdeploy.Py.{ok}
use netdeploy.Db.{Db, Device, AuditLog, find_device, add_audit}
use netdeploy.Proc.{State, ◌>>=◌, attempt, Net, run}
use netdeploy.Proc.Run.{and_then, run-bind}
use netdeploy.Orchestrator.{rollback_all, is_true}
use netdeploy.Orchestrator.Records.{write_audit, get_device}
use netdeploy.Orchestrator.Device.{rollback_device, rollback_known}

pub is_known : Option Device → Bool
is_known none = false
is_known (some d) = true

-- `id` names a row of the devices.
abbrev pub known : Db → ℕ → Bool
known db id = is_known (find_device id db)

-- the entry that a rollback of a device writes
abbrev pub rollback_entry : Text → ℕ → AuditLog
rollback_entry user id = record {
  user_id = user;
  action = "ROLLBACK";
  resource_type = "Deployment";
  resource_id = id;
  details = field "reason" (str (codes "auto-rollback on deploy failure")) end;
  ip_address = none;
}

abbrev pub with_entries : Text → List ℕ → State → State
with_entries user ids s = record s {
  db = record s.db {
    audit_logs = s.db.audit_logs ++ map (rollback_entry user) (keep (known s.db) ids);
  };
}

-- one device, given what the database finds for it
rollback_one :
    (net : Net) (id : ℕ) (user : Text) (s : State) (o : Option Device)
    → find_device id s.db ≡ o
    → run net (attempt (rollback_known id user o)) s
      ≡ (ok (ok (is_known o)), with_entries user (id ∷ []) s)
unfolding run attempt rollback_known write_audit add_audit is_known ◌>>=◌
rollback_one net id user s none e = rw (e, append-nil s.db.audit_logs)
rollback_one net id user s (some d) e = rw e

entries-cons :
    (user : Text) (db : Db) (id : ℕ) (ids : List ℕ) (log : List AuditLog)
    → (log ++ map (rollback_entry user) (keep (known db) (id ∷ [])))
        ++ map (rollback_entry user) (keep (known db) ids)
      ≡ log ++ map (rollback_entry user) (keep (known db) (id ∷ ids))
entries-cons user db id ids log = elim (Bool-cases (known db id)) [
  | inl h ↦ rw h (append_assoc log (rollback_entry user id ∷ []) _)
  | inr h ↦ rw h (rw (append-nil log))
]

-- A rollback of a batch changes nothing but the audit log, where it adds one entry for each
-- device that exists, in order; it succeeds exactly if all the devices exist.
pub rollback_all-writes_audit :
    (net : Net) (ids : List ℕ) (user : Text) (s : State)
    → run net (rollback_all ids user) s ≡ (ok (all (known s.db) ids), with_entries user ids s)
unfolding rollback_all rollback_device get_device attempt ◌>>=◌ is_known is_true and_then run
    find_device
rollback_all-writes_audit net [] user s = rw (append-nil s.db.audit_logs)
rollback_all-writes_audit net (id ∷ ids) user s =
    let s₁ = with_entries user (id ∷ []) s in
    rw
      (
        run-bind net (attempt (rollback_known id user (find_device id s.db))) _ s,
        rollback_one net id user s _ refl,
      )
      (rw (run-bind net (rollback_all ids user) _ s₁, rollback_all-writes_audit net ids user s₁)
        (ap
          (λ log.
            (ok (all (known s.db) (id ∷ ids)), record s { db = record s.db { audit_logs = log } }))
          (entries-cons user s.db id ids s.db.audit_logs)))
