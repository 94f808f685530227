-- ===== src/Orchestrator/Settled.antt =====
-- core/orchestrator.py: no strategy leaves a row in progress. The coroutines of `deploy` keep the
-- row of every device either queued or ended, whichever devices they are about.
use netdeploy.Base.{
  ℕ, String, ◌≡◌, refl, sym, ap, ◌∙◌, ◌≢◌, ◌⊎◌, inl, inr, Bool, true, false, List, [], ◌∷◌, ◌++◌,
  Option, none, some, All, ◌==◌, ==_iff, Bool-cases, if◌then◌else◌,
}
use mathlib.Core.Path.{subst}
use netdeploy.Text.{Text}
use netdeploy.Py.{Py, ok, raised}
use netdeploy.Db.{Device, Deployment, queued, success, rollback, failed, find_device}
use netdeploy.Db.Rows.{Key, Distinct}
use netdeploy.Proc.{Proc, Net}
use netdeploy.Proc.Logic.{Wp, quiet_ret, Quiet-bind, Quiet-attempt}
use netdeploy.Proc.Stays.{Stays, Stays-Quiet, Stays-ret, Stays-bind, Stays-if, Wp-weaken}
use netdeploy.Snapshots.{Env}
use netdeploy.Orchestrator.{
  BatchResult, roll, deploy_rolling, after_deploy, after_health, rollback_all, atomic_verdict,
  canary_stage, judge_canary, judge_health,
}
use netdeploy.Orchestrator.Device.{
  DeviceResult, deploy_to_device, health_check, health_of, rollback_device, rollback_known,
}
use netdeploy.Orchestrator.Records.{is_terminal, get_device, get_desired_config}
use netdeploy.Orchestrator.Rows.{HasKeys, row, Calm, Calm-gets, Calm-write_audit}
use netdeploy.Orchestrator.Outcome.{Recorded, recorded_status, Wp-deploy_to_device}
use netdeploy.Orchestrator.Parallel.{HasRow, Calm-deploy}

-- The deployment of the row is over: its status is final and its end time is set.
abbrev pub Ended : Deployment → Type 0
Ended x = (is_terminal x.status ≡ true) × (x.end_time ≢ none)

-- There is a row, and it waits or is over.
abbrev pub Settled : Option Deployment → Type 0
Settled r = (x : Deployment) × (r ≡ some x) × ((x.status ≡ queued) ⊎ Ended x)

recorded_status-terminal : (res : DeviceResult) → is_terminal (recorded_status res) ≡ true
recorded_status-terminal res = go res.success res.deployment_id
  where
    go :
        (good : Bool) (i : Option ℕ)
        → is_terminal (if good then success else elim i [ none ↦ failed | some n ↦ rollback ])
          ≡ true
    go true i = refl
    go false none = refl
    go false (some n) = refl

Recorded-Settled :
    (old : Option Text) (o : Py DeviceResult) (r : Option Deployment) → Recorded old o r → Settled r
Recorded-Settled old (raised e) r h = elim h [ ]
Recorded-Settled old (ok res) r (y, found, st, ended, _) =
    (y, found, inr (ap is_terminal st ∙ recorded_status-terminal res, ended))

module _ (b : ℕ) (ks : List Key) (dev : ℕ) where
  abbrev pub Keeps : {A : Type 0} → Proc A → Type 0
  Keeps = Stays (HasKeys b ks) (row b ks dev) Settled

  Calm-health_check : (id : ℕ) → Calm b ks dev (health_check id)
  unfolding health_check get_device health_of get_desired_config
  Calm-health_check id = Quiet-bind _ _ _ (Calm-gets b ks dev (find_device id)) known
    where
      known : (d : Option Device) → Calm b ks dev (health_of id d)
      known none = quiet_ret false
      known (some d) = Quiet-bind _ _ _ (Calm-gets b ks dev _) λ config. quiet_ret true

  Calm-rollback_device : (id : ℕ) (user : Text) → Calm b ks dev (rollback_device id user)
  unfolding rollback_device get_device rollback_known
  Calm-rollback_device id user = Quiet-bind _ _ _ (Calm-gets b ks dev (find_device id)) known
    where
      known : (d : Option Device) → Calm b ks dev (rollback_known id user d)
      known none = quiet_ret false
      known (some d) = Quiet-bind _ _ _ (Calm-write_audit b ks dev _ _ _ _) λ u. quiet_ret true

  Calm-rollback_all : (ids : List ℕ) (user : Text) → Calm b ks dev (rollback_all ids user)
  unfolding rollback_all
  Calm-rollback_all [] user = quiet_ret true
  Calm-rollback_all (id ∷ ids) user =
      Quiet-bind _ _ _ (Quiet-attempt _ _ (Calm-rollback_device id user))
        λ r. Quiet-bind _ _ _ (Calm-rollback_all ids user) λ rest. quiet_ret _

  module _ (env : Env) (net : Net) (version : String) (user : Text) (distinct : Distinct ks) where
    -- One deployment, of this device or of another one.
    pub Keeps-deploy :
        (id : ℕ) → HasRow b ks id → Keeps (deploy_to_device env id version user (some b))
    unfolding Stays
    Keeps-deploy id has = elim (Bool-cases (id == dev)) [
      | inl same ↦ λ r (x, found, _).
          let own : Wp (HasKeys b ks) (row b ks dev)
              (deploy_to_device env dev version user (some b)) (λ o r'. Settled r') r =
            Wp-weaken _ _ _ _ _ r (Recorded-Settled x.error_message) (
              subst (Wp _ _ _ _) (sym found)
                (Wp-deploy_to_device b ks distinct env dev version user x)) in
          subst
            (λ j.
              Wp (HasKeys b ks) (row b ks dev) (deploy_to_device env j version user (some b))
                (λ o r'. Settled r') r)
            (sym ((==_iff id dev).0 same)) own
      | inr other ↦ Stays-Quiet _ _ _ (Calm-deploy b ks dev env id version user distinct has other)
    ]

    Keeps-after_deploy :
        (id : ℕ) (completed : List ℕ) (next : Proc BatchResult) (r : DeviceResult)
        → Keeps next
        → Keeps (after_deploy env net version b user id completed next r)
    unfolding after_deploy after_health
    Keeps-after_deploy id completed next r rest =
        Stays-if _ _ _ r.success _ _
          (Stays-bind _ _ _ _ _ (Stays-Quiet _ _ _ (Calm-health_check id)) judged)
          (Stays-ret _ _ _ _)
      where
        judged :
            (healthy : Bool)
            → Keeps (after_health env net version b user id (completed ++ (id ∷ [])) next healthy)
        judged true = rest
        judged false = Stays-ret _ _ _ _

    Keeps-roll :
        (all done ids : List ℕ)
        → All (HasRow b ks) ids
        → Keeps (roll env net version b user all done ids)
    unfolding roll
    Keeps-roll all done [] has = Stays-ret _ _ _ _
    Keeps-roll all done (id ∷ ids) has =
        Stays-bind _ _ _ _ _ (Keeps-deploy id has.0)
          λ r. Keeps-after_deploy id done _ r (Keeps-roll all (done ++ (id ∷ [])) ids has.1)

    pub Keeps-deploy_rolling :
        (ids : List ℕ) → All (HasRow b ks) ids → Keeps (deploy_rolling env net version b user ids)
    unfolding deploy_rolling
    Keeps-deploy_rolling ids has = Keeps-roll ids [] ids has

    pub Keeps-atomic_verdict :
        (ids failed_ids : List ℕ) → Keeps (atomic_verdict env net version b user ids failed_ids)
    unfolding atomic_verdict
    Keeps-atomic_verdict ids [] = Stays-ret _ _ _ _
    Keeps-atomic_verdict ids (id ∷ rest) =
        Stays-bind _ _ _ _ _ (Stays-Quiet _ _ _ (Calm-rollback_all ids user)) λ r. Stays-ret _ _ _ _

    pub Keeps-canary_stage :
        (id : ℕ) → HasRow b ks id → Keeps (canary_stage env net version b user id)
    unfolding canary_stage judge_canary judge_health
    Keeps-canary_stage id has = Stays-bind _ _ _ _ _ (Keeps-deploy id has) λ r.
        Stays-if _ _ _ r.success _ _
          (Stays-bind _ _ _ _ _ (Stays-Quiet _ _ _ (Calm-health_check id)) judged)
          (Stays-ret _ _ _ _)
      where
        judged : (healthy : Bool) → Keeps (judge_health env net version b user id healthy)
        judged true = Stays-ret _ _ _ _
        judged false =
            Stays-bind _ _ _ _ _ (Stays-Quiet _ _ _ (Calm-rollback_device id user))
              λ r. Stays-ret _ _ _ _
