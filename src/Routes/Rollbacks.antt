-- ===== src/Routes/Rollbacks.antt =====
-- api/routes/deployments.py: how a request for a rollback ends.
use netdeploy.Base.{ℕ, ◌≡◌, refl, ◌⊎◌, inl, inr, true, false, ◌++◌, Option, none, some, Bool-cases}
use netdeploy.Text.{Text, codes}
use netdeploy.Py.{Py, ok}
use netdeploy.Db.{
  Deployment, Status, queued, in_progress, success, rollback, failed, find_deployment,
}
use netdeploy.Proc.{State, Proc, ret, ◌>>=◌, Net, run}
use netdeploy.Proc.Run.{and_then, run-bind}
use netdeploy.Routes.{message, Reply, reply, refused}
use netdeploy.Routes.Deployments.{
  RollbackJob, status_text, may_roll_back, rollback_found, rollback_deployment,
}
use netdeploy.Routes.Started.{Takes}

-- a status from which a rollback is possible
abbrev pub Finished : Status → Type 0
Finished st = (st ≡ success) ⊎ (st ≡ failed)

may_roll_back-Finished : (st : Status) → may_roll_back st ≡ true → Finished st
unfolding may_roll_back
may_roll_back-Finished success h = inl refl
may_roll_back-Finished failed h = inr refl
may_roll_back-Finished queued h = cc
may_roll_back-Finished in_progress h = cc
may_roll_back-Finished rollback h = cc

not_Finished : (st : Status) → may_roll_back st ≡ false → Finished st → ⊥
unfolding may_roll_back
not_Finished st h (inl e) = cc
not_Finished st h (inr e) = cc

module _ (net : Net) (delay : RollbackJob → Proc Text) (user : Text) (id : ℕ) where
  -- The ends of a request; none of them changes the database.
  pub data RollbackEnd (s : State) : Py (Reply Text) × State → Type 0 where
    unknown_deployment :
        find_deployment id s.db ≡ none
        → RollbackEnd s (ok (refused 404 (message (codes "Deployment not found"))), s)
    not_finished :
        (d : Deployment)
        → find_deployment id s.db ≡ some d
        → (Finished d.status → ⊥)
        → RollbackEnd s (
          ok (
              refused 400
                (message (codes "Cannot rollback deployment in status: " ++ status_text d.status))),
          s,
        )
    job_queued :
        (d : Deployment) (task : Text)
        → find_deployment id s.db ≡ some d
        → Finished d.status
        → run net (delay (record { device_id = d.device_id; deployment_id = id; user_id = user })) s
          ≡ (ok task, s)
        → RollbackEnd s (ok (reply task), s)

  -- If Celery takes every job, then a request for the rollback of a deployment is refused with 404
  -- if there is no such deployment, with 400 and the status if that is neither SUCCESS nor FAILED,
  -- and otherwise a job for the device of the deployment is enqueued and its id is returned.
  pub rollback_deployment-RollbackEnd :
      Takes net delay → (s : State) → RollbackEnd s (run net (rollback_deployment delay user id) s)
  unfolding rollback_deployment run ◌>>=◌ rollback_found and_then
  rollback_deployment-RollbackEnd takes s = go (find_deployment id s.db) refl
    where
      go :
          (o : Option Deployment)
          → find_deployment id s.db ≡ o
          → RollbackEnd s (run net (rollback_found delay user id o) s)
      go none e = unknown_deployment e
      go (some d) e =
          let job : RollbackJob = record {
            device_id = d.device_id;
            deployment_id = id;
            user_id = user;
          } in
          let (task, taken) = takes job s in
          elim (Bool-cases (may_roll_back d.status)) [
            | inl may ↦ rw may (
                rw (run-bind net (delay job) (λ task_id. ret (reply task_id)) s, taken)
                  (job_queued d task e (may_roll_back-Finished d.status may) taken))
            | inr may_not ↦ rw may_not (not_finished d e (not_Finished d.status may_not))
          ]
