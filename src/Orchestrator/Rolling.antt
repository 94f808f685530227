-- ===== src/Orchestrator/Rolling.antt =====
-- core/orchestrator.py: how `_deploy_rolling` ends.
use netdeploy.Base.{
  ℕ, String, ◌≡◌, refl, sym, ap, ◌∙◌, ◌⊎◌, Bool, true, false, not, List, [], ◌∷◌, ◌++◌, Option,
  none, some, All, All-map, All-and, ◌==◌, Bool-cases, inl, inr, if◌then◌else◌,
}
use mathlib.Core.Path.{subst}
use mathlib.Core.List.{append_assoc, append-nil}
use netdeploy.Text.{Text}
use netdeploy.Py.{Py, ok, raised}
use netdeploy.Db.{Deployment, success, failed, rollback, find_device, find_in_batch}
use netdeploy.Db.Rows.{Key, keys, row_id, Distinct}
use netdeploy.Proc.{State, Proc, Net, run}
use netdeploy.Proc.Run.{and_then, run-bind}
use netdeploy.Snapshots.{Env}
use netdeploy.Orchestrator.{
  BatchResult, all_deployed, rolling_failed, rolling_unhealthy, roll, deploy_rolling, after_deploy,
  after_health, has_failed,
}
use netdeploy.Orchestrator.Device.{DeviceResult, deploy_to_device, health_check}
use netdeploy.Orchestrator.Records.{or_old}
use netdeploy.Orchestrator.Health.{run-health_check, health_check-missing}
use netdeploy.Orchestrator.Outcome.{Recorded}
use netdeploy.Orchestrator.Ends.{deploy_to_device-Recorded}
use netdeploy.Orchestrator.Leaves.{Unique, none_is}
use netdeploy.Orchestrator.Parallel.{HasRow, row_found, has_row}
use netdeploy.Orchestrator.Success.{Succeeded, Recorded-success}
use netdeploy.Orchestrator.Success.Step.{deploy_to_device-Stepped}

-- An error that is not empty is the one of the row.
abbrev Told : Option Text → Option Text → Type 0
Told (some (c ∷ t)) message = message ≡ some (c ∷ t)
Told _ message = Unit

-- The row of a device tells a failure.
abbrev pub Failed : ℕ → State → Option Text → ℕ → Type 0
Failed b s error dev =
    (y : Deployment) × (find_in_batch b dev s.db ≡ some y)
    × ((y.status ≡ failed) ⊎ (y.status ≡ rollback))
    × Told error y.error_message

-- All devices are deployed, or the batch stops at the first device that fails or is unhealthy. The
-- devices before it are the completed ones, and the rows of the completed devices say SUCCESS.
pub data RollingEnd (b : ℕ) (ids : List ℕ) : Py BatchResult × State → Type 0 where
  all_done : (s : State) → All (Succeeded b s) ids → RollingEnd b ids (ok (all_deployed b ids), s)
  one_failed :
      (done : List ℕ) (id : ℕ) (rest : List ℕ) (error : Option Text) (s : State)
      → ids ≡ done ++ (id ∷ rest)
      → All (Succeeded b s) done
      → Failed b s error id
      → RollingEnd b ids (ok (rolling_failed b done id error), s)
  one_unhealthy :
      (done : List ℕ) (id : ℕ) (rest : List ℕ) (error : Text) (s : State)
      → ids ≡ done ++ (id ∷ rest)
      → All (Succeeded b s) (done ++ (id ∷ []))
      → find_device id s.db ≡ none
      → RollingEnd b ids (ok (rolling_unhealthy b (done ++ (id ∷ [])) error), s)

All-last : (P : ℕ → Type 0) (xs : List ℕ) (x : ℕ) → All P xs → P x → All P (xs ++ (x ∷ []))
All-last P [] x h p = (p, tt)
All-last P (y ∷ ys) x h p = (h.0, All-last P ys x h.1 p)

told : (error old : Option Text) → Told error (or_old error old)
told none old = tt
told (some []) old = tt
told (some (c ∷ t)) old = refl

Recorded-failure :
    (old : Option Text) (r : DeviceResult) (b : ℕ) (s : State) (dev : ℕ)
    → Recorded old (ok r) (find_in_batch b dev s.db)
    → r.success ≡ false
    → Failed b s r.error dev
Recorded-failure old r b s dev (y, found, st, ended, err) bad = (
  y,
  found,
  left r.success r.deployment_id st bad,
  subst (Told r.error) (sym err) (told r.error old),
)
  where
    left :
        (t : Bool) (i : Option ℕ)
        → y.status ≡ (if t then success else elim i [ none ↦ failed | some k ↦ rollback ])
        → t ≡ false
        → (y.status ≡ failed) ⊎ (y.status ≡ rollback)
    left true i e h = cc
    left false none e h = inl e
    left false (some k) e h = inr e

module _ (env : Env) (net : Net) (b : ℕ) (version : String) (user : Text) (ks : List Key)
    (distinct : Distinct ks) where
  -- after one device, whatever its result
  after_deploy-ends :
      (all done : List ℕ) (id : ℕ) (ids : List ℕ) (next : Proc BatchResult) (r : DeviceResult)
      (old : Option Text) (s : State)
      → all ≡ done ++ (id ∷ ids)
      → All (Succeeded b s) done
      → Recorded old (ok r) (find_in_batch b id s.db)
      → (All (Succeeded b s) (done ++ (id ∷ [])) → RollingEnd b all (run net next s))
      → RollingEnd b all (run net (after_deploy env net version b user id done next r) s)
  unfolding after_deploy after_health and_then has_failed run
  after_deploy-ends all done id ids next r old s split before recorded rest =
      elim (Bool-cases r.success) [
        | inl good ↦
            let clean : has_failed (ok r) ≡ false = ap not good in
            let more =
              All-last (Succeeded b s) done id before
                (Recorded-success old (ok r) _ recorded clean) in
            let (h, healthy) = run-health_check net id s in
            rw good (rw (run-bind net (health_check id) _ s, healthy) (judged h healthy more))
        | inr bad ↦ rw bad (
            one_failed done id ids r.error s split before
              (Recorded-failure old r b s id recorded bad))
      ]
    where
      judged :
          (h : Bool)
          → run net (health_check id) s ≡ (ok h, s)
          → All (Succeeded b s) (done ++ (id ∷ []))
          → RollingEnd b all (
              and_then net
                (after_health env net version b user id (done ++ (id ∷ [])) next)
                (ok h, s))
      judged true e more = rest more
      judged false e more =
          one_unhealthy done id ids _ s split more (health_check-missing net id s e)

  -- what runs after the first deployment, which raised nothing
  after_first :
      (all done : List ℕ) (id : ℕ) (ids : List ℕ) (next : Proc BatchResult) (old : Option Text)
      (first : Py DeviceResult × State)
      → all ≡ done ++ (id ∷ ids)
      → keys first.1.db ≡ ks
      → All (Succeeded b first.1) done
      → Recorded old first.0 (find_in_batch b id first.1.db)
      → ((s : State)
          → keys s.db ≡ ks
          → All (Succeeded b s) (done ++ (id ∷ []))
          → RollingEnd b all (run net next s))
      → RollingEnd b all (and_then net (after_deploy env net version b user id done next) first)
  unfolding and_then
  after_first all done id ids next old (raised e, s) split k before recorded rest =
      elim recorded [ ]
  after_first all done id ids next old (ok r, s) split k before recorded rest =
      after_deploy-ends all done id ids next r old s split before recorded (rest s k)

  roll-ends :
      (all done ids : List ℕ) (s : State)
      → keys s.db ≡ ks
      → all ≡ done ++ ids
      → All (HasRow b ks) ids
      → Unique ids
      → All (λ d. All (λ i. (i == d) ≡ false) ids) done
      → All (Succeeded b s) done
      → RollingEnd b all (run net (roll env net version b user all done ids) s)
  unfolding roll run
  roll-ends all done [] s k split rows unique apart before =
      all_done s (subst (All (Succeeded b s)) (sym (split ∙ append-nil done)) before)
  roll-ends all done (id ∷ ids) s k split rows unique apart before =
      let (x, found, _) = row_found b id s.db (ap (row_id b id) k ∙ rows.0.1) in
      let one = deploy_to_device env id version user (some b) in
      let (k', recorded) =
        deploy_to_device-Recorded env net b id version user s x (subst Distinct (sym k) distinct)
          found in
      let kept =
        All-map done
          (λ d (theirs, (y, there, st)). (
            y,
            (deploy_to_device-Stepped env net b version user ks d id s distinct rows.0 k).other
                  theirs.0
                ∙ there,
            st,
          ))
          (All-and _ (Succeeded b s) done apart before) in
      let apart₁ =
        All-last (λ d. All (λ i. (i == d) ≡ false) ids) done id (All-map done (λ d h. h.1) apart)
          (none_is id ids unique.0) in
      rw (run-bind net one _ s) (
        after_first all done id ids (roll env net version b user all (done ++ (id ∷ [])) ids)
          x.error_message (run net one s) split (k' ∙ k) kept recorded
          (λ s₁ k₁ more.
            roll-ends all (done ++ (id ∷ [])) ids s₁ k₁
              (split ∙ sym (append_assoc done (id ∷ []) ids)) rows.1 unique.1 apart₁ more))

module _ (env : Env) (net : Net) (b : ℕ) (version : String) (user : Text) where
  -- If the ids of the deployment rows are distinct, no device is listed twice and each device has a
  -- row in the batch, then a rolling deployment returns a result whatever the devices answer or
  -- raise: all devices are deployed, or it names the first device that failed, with exactly the
  -- devices before it as completed, or it stops after the first unhealthy device, which is not in
  -- the table of devices, with that one and those before it as completed. The rows of the completed
  -- devices say SUCCESS, and the row of the one that failed says FAILED or ROLLBACK, with the
  -- error of the result unless that is empty.
  pub deploy_rolling-RollingEnd :
      (ids : List ℕ) (s : State)
      → Distinct (keys s.db)
      → Unique ids
      → All (λ i. (x : Deployment) × (find_in_batch b i s.db ≡ some x)) ids
      → RollingEnd b ids (run net (deploy_rolling env net version b user ids) s)
  unfolding deploy_rolling
  deploy_rolling-RollingEnd ids s distinct unique rows =
      roll-ends env net b version user (keys s.db) distinct ids [] ids s refl refl
        (All-map ids (λ i h. has_row b i s.db h.1) rows) unique tt tt
