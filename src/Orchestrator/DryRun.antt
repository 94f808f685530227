-- ===== src/Orchestrator/DryRun.antt =====
-- core/orchestrator.py: batches that call no device, under every strategy.
use netdeploy.Base.{
  ℕ, String, ◌≡◌, refl, ◌∙◌, Bool, true, false, List, [], ◌∷◌, ◌++◌, Option, none, some, str_eq,
  if◌then◌else◌,
}
use netdeploy.Text.{Text}
use netdeploy.Py.{Py, ok, raised}
use netdeploy.Proc.{State, Proc, Net, run}
use netdeploy.Proc.Offline.{
  Offline, offline_ret, Offline-bind, Offline-attempt, Offline-if, run-Offline,
}
use netdeploy.Gather.Offline.{gather-Offline}
use netdeploy.Snapshots.{Env}
use netdeploy.Orchestrator.{
  BatchResult, after_health, after_deploy, roll, deploy_rolling, atomic_verdict, after_atomic,
  deploy_atomic, judge_health, judge_canary, canary_stage, after_rest, after_canary, deploy_canary,
  deploy, rollback_all, failures, canary_done, count_failed,
}
use netdeploy.Orchestrator.Device.{deploy_to_device}
use netdeploy.Orchestrator.Offline.{
  Offline-health_check, Offline-rollback_device, Offline-dry, Offline-other_version,
}

pub Offline-rollback_all : (ids : List ℕ) (user : Text) → Offline (rollback_all ids user)
unfolding rollback_all
Offline-rollback_all [] user = offline_ret true
Offline-rollback_all (id ∷ ids) user =
    Offline-bind _ (Offline-attempt (Offline-rollback_device id user))
      λ r. Offline-bind _ (Offline-rollback_all ids user) λ rest. offline_ret _

-- The batch ends, with no call added to those made before.
EndsOffline : State → Option (Py BatchResult × State) → Type 0
EndsOffline s o = (r : Py BatchResult) × (s' : State) × (o ≡ some (r, s')) × (s'.wire ≡ s.wire)

module _ (env : Env) (net : Net) (version : String) (batch : ℕ) (user : Text)
    (each : (i : ℕ) → Offline (deploy_to_device env i version user (some batch))) where
  Offline-roll : (all done ids : List ℕ) → Offline (roll env net version batch user all done ids)
  unfolding roll after_deploy
  Offline-roll all done [] = offline_ret _
  Offline-roll all done (id ∷ ids) = Offline-bind _ (each id) λ r.
      Offline-if r.success
        (Offline-bind _ (Offline-health_check id)
          (healthy _ _ (Offline-roll all (done ++ (id ∷ [])) ids)))
        (offline_ret _)
    where
      healthy :
          {p : Proc BatchResult} (d : List ℕ) (i : ℕ)
          → Offline p
          → (h : Bool) → Offline (after_health env net version batch user i d p h)
      healthy d i q true = q
      healthy d i q false = offline_ret _

  ends_run : {p : Proc BatchResult} (s : State) → Offline p → EndsOffline s (some (run net p s))
  unfolding EndsOffline
  ends_run {p} s q = ((run net p s).0, (run net p s).1, refl, run-Offline net s q)

  Offline-verdict : (ids bad : List ℕ) → Offline (atomic_verdict env net version batch user ids bad)
  unfolding atomic_verdict
  Offline-verdict ids [] = offline_ret _
  Offline-verdict ids (b ∷ bad) = Offline-bind _ (Offline-rollback_all ids user) λ r. offline_ret _

  atomic-EndsOffline :
      (schedule ids : List ℕ) (s : State)
      → EndsOffline s (deploy_atomic env net version batch user schedule ids s)
  unfolding EndsOffline deploy_atomic after_atomic
  atomic-EndsOffline schedule ids s =
      let (os, s₁, e, w) = gather-Offline net schedule _ ids s each in
      let (r, s₂, e₂, w₂) = ends_run s₁ (Offline-verdict ids (failures ids os)) in
      (r, s₂, rw e e₂, w₂ ∙ w)

  Offline-canary_stage : (id : ℕ) → Offline (canary_stage env net version batch user id)
  unfolding canary_stage judge_canary
  Offline-canary_stage id = Offline-bind _ (each id) λ r.
      Offline-if r.success (Offline-bind _ (Offline-health_check id) (healthy id)) (offline_ret _)
    where
      healthy : (i : ℕ) (h : Bool) → Offline (judge_health env net version batch user i h)
      healthy i true = offline_ret _
      healthy i false = Offline-bind _ (Offline-rollback_device i user) λ r. offline_ret _

  rest-EndsOffline :
      (schedule : List ℕ) (id : ℕ) (rest : List ℕ) (o : Py (Option BatchResult)) (s : State)
      → EndsOffline s (after_canary env net version batch user schedule id rest (o, s))
  unfolding EndsOffline after_canary after_rest
  rest-EndsOffline schedule id rest (raised e) s = (_, _, refl, refl)
  rest-EndsOffline schedule id rest (ok (some r)) s = (_, _, refl, refl)
  rest-EndsOffline schedule id rest (ok none) s =
      let (os, s₁, e, w) = gather-Offline net schedule _ rest s each in
      (ok (canary_done batch (id ∷ rest) (count_failed os)), s₁, rw e, w)

  canary-EndsOffline :
      (schedule ids : List ℕ) (s : State)
      → EndsOffline s (deploy_canary env net version batch user schedule ids s)
  unfolding EndsOffline deploy_canary
  canary-EndsOffline schedule [] s = (_, _, refl, refl)
  canary-EndsOffline schedule (id ∷ rest) s =
      let first = run-Offline net s (Offline-canary_stage id) in
      let (r, s', e, w) = rest-EndsOffline schedule id rest _ _ in (r, s', e, w ∙ first)

  EndsOffline-if :
      (test : Bool) (s : State) (o o' : Option (Py BatchResult × State))
      → EndsOffline s o
      → EndsOffline s o'
      → EndsOffline s (if test then o else o')
  EndsOffline-if true s o o' h k = h
  EndsOffline-if false s o o' h k = k

  deploy-EndsOffline :
      (strategy : String) (schedule ids : List ℕ) (s : State)
      → EndsOffline s (deploy env net version batch user strategy schedule ids s)
  unfolding deploy deploy_rolling EndsOffline
  deploy-EndsOffline strategy schedule ids s =
      EndsOffline-if _ s _ _ (canary-EndsOffline schedule ids s) (
        EndsOffline-if _ s _ _ (ends_run s (Offline-roll ids [] ids))
          (EndsOffline-if _ s _ _ (atomic-EndsOffline schedule ids s) (_, _, refl, refl)))

module _ (env : Env) (net : Net) (version : String) (batch : ℕ) (user : Text) (strategy : String)
    (schedule ids : List ℕ) (s : State) where
  -- In a dry run, a batch of any strategy ends under every schedule, and no device is called.
  pub deploy-dry_run :
      env.dry_run ≡ true
      → (r : Py BatchResult) × (s' : State) × (deploy env net version batch user strategy schedule
            ids s
          ≡ some (r, s'))
        × (s'.wire ≡ s.wire)
  unfolding EndsOffline
  deploy-dry_run dry =
      deploy-EndsOffline env net version batch user
        (λ i. Offline-dry env i version user (some batch) dry) strategy schedule ids s

  -- A batch of a version other than "latest" ends under every strategy and schedule without a
  -- call to any device.
  pub deploy-other_version :
      str_eq version "latest" ≡ false
      → (r : Py BatchResult) × (s' : State) × (deploy env net version batch user strategy schedule
            ids s
          ≡ some (r, s'))
        × (s'.wire ≡ s.wire)
  unfolding EndsOffline
  deploy-other_version other =
      deploy-EndsOffline env net version batch user
        (λ i. Offline-other_version env i version user (some batch) other) strategy schedule ids s
