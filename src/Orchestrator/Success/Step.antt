-- ===== src/Orchestrator/Success/Step.antt =====
-- core/orchestrator.py: what one deployment does for a device that is to be told as deployed.
use netdeploy.Base.{
  ℕ, String, ◌≡◌, refl, sym, ap, ◌∙◌, true, false, Option, some, ◌==◌, ==_iff, List,
}
use mathlib.Core.Path.{subst}
use netdeploy.Text.{Text}
use netdeploy.Py.{Py, ok, raised}
use netdeploy.Db.{Deployment, find_in_batch}
use netdeploy.Db.Rows.{Key, keys, row_id, Distinct}
use netdeploy.Proc.{State, Net, run}
use netdeploy.Snapshots.{Env}
use netdeploy.Orchestrator.{has_failed}
use netdeploy.Orchestrator.Device.{DeviceResult, deploy_to_device}
use netdeploy.Orchestrator.Outcome.{Recorded}
use netdeploy.Orchestrator.Ends.{deploy_to_device-Recorded}
use netdeploy.Orchestrator.Rows.{HasKeys, row}
use netdeploy.Orchestrator.Parallel.{HasRow, row_found, Calm-deploy}
use netdeploy.Orchestrator.Untouched.{run-Quiet}
use netdeploy.Orchestrator.Success.{Succeeded, Recorded-success}

-- How a deployment to a device ends, seen from the row of a device that may be another one.
pub record Stepped (b : ℕ) (ks : List Key) (dev id : ℕ) (s : State) (out : Py DeviceResult × State)
    : Type 0 where
  pub same_keys : keys out.1.db ≡ ks
  pub result : (r : DeviceResult) × (out.0 ≡ ok r)
  pub own : (id == dev) ≡ true → has_failed out.0 ≡ false → Succeeded b out.1 dev
  pub other : (id == dev) ≡ false → find_in_batch b dev out.1.db ≡ find_in_batch b dev s.db

Recorded-result :
    (old : Option Text) (o : Py DeviceResult) (row : Option Deployment)
    → Recorded old o row
    → (r : DeviceResult) × (o ≡ ok r)
Recorded-result old (ok r) row h = (r, refl)
Recorded-result old (raised e) row h = elim h [ ]

pub deploy_to_device-Stepped :
    (env : Env) (net : Net) (b : ℕ) (version : String) (user : Text) (ks : List Key) (dev id : ℕ)
    (s : State)
    → Distinct ks
    → HasRow b ks id
    → keys s.db ≡ ks
    → Stepped b ks dev id s (run net (deploy_to_device env id version user (some b)) s)
deploy_to_device-Stepped env net b version user ks dev id s distinct has k =
    let (x, found, _) = row_found b id s.db (ap (row_id b id) k ∙ has.1) in
    let (k', recorded) =
      deploy_to_device-Recorded env net b id version user s x (subst Distinct (sym k) distinct)
        found in
    let s₁ = (run net (deploy_to_device env id version user (some b)) s).1 in
    record {
      same_keys = k' ∙ k;
      result = Recorded-result _ _ _ recorded;
      own = λ mine good.
          subst (λ j. Succeeded b s₁ j) ((==_iff id dev).0 mine)
            (Recorded-success _ _ _ recorded good);
      other = λ theirs.
          (run-Quiet (HasKeys b ks) (row b ks dev) net s k
            (Calm-deploy b ks dev env id version user distinct has theirs)).1;
    }
