-- ===== src/Tasks/Finished.antt =====
-- tasks/deployment.py: when the task of a batch returns, every device's row is over.
use netdeploy.Base.{
  ℕ, zero, suc, String, ◌≡◌, refl, sym, ap, ◌∙◌, ◌⊎◌, inl, inr, Bool, true, false, ◌&&◌, List, [],
  ◌∷◌, Option, none, some, find?, find?-cons, find?-sound, All, All-map, ◌==◌, ==_iff, Bool-cases,
  arith,
}
use mathlib.Core.Path.{subst}
use netdeploy.Text.{Text}
use netdeploy.Py.{Py, ok, raised}
use netdeploy.Db.{Db, Deployment, Status, queued, find_in_batch}
use netdeploy.Db.Rows.{Key, key, keys, in_batch, Distinct}
use netdeploy.Proc.{State, Net, run}
use netdeploy.Proc.Total.{Total, total_ret, Total-bind, Total-gets, Total-modify, run-Total}
use netdeploy.Snapshots.{Env}
use netdeploy.Orchestrator.{
  BatchResult, rejected, canary_failed, canary_unhealthy, canary_done, rolling_failed,
  rolling_unhealthy, rolled_back, all_deployed,
}
use netdeploy.Orchestrator.Records.{is_terminal}
use netdeploy.Orchestrator.Parallel.{has_row}
use netdeploy.Orchestrator.Settled.{Settled, Ended}
use netdeploy.Orchestrator.Leaves.{Unique, IfEnded, deploy-Good}
use netdeploy.Orchestrator.Total.{NoError, deploy-NoError, Total-utcnow}
use netdeploy.Orchestrator.Schedules.{deploy-Returns}
use netdeploy.Batches.Queued.{Queued}
use netdeploy.Tasks.{
  TaskEnd, returned, end_or_now, finish_rows, finalize_batch_status, after_batch, after_finalize,
  validate_and_deploy_task,
}
use netdeploy.Tasks.OnePass.{
  left_status, left_error, left_row, one_pass, waiting, with_table, finalize-one_pass,
}

left_status-terminal : (r : BatchResult) → is_terminal (left_status r) ≡ true
unfolding left_status
left_status-terminal (rejected e) = refl
left_status-terminal (canary_failed b e) = refl
left_status-terminal (canary_unhealthy b e) = refl
left_status-terminal (canary_done b ids zero) = refl
left_status-terminal (canary_done b ids (suc n)) = refl
left_status-terminal (rolling_failed b done id e) = refl
left_status-terminal (rolling_unhealthy b done e) = refl
left_status-terminal (rolled_back b ids) = refl
left_status-terminal (all_deployed b ids) = refl

module _ (env : Env) (b : ℕ) (target : Status) (error : Text) where
  -- what the pass makes of a row
  abbrev Passed : Deployment → Deployment → Type 0
  Passed x y =
      ((waiting b x ≡ true) × ((t : ℕ) × (y ≡ left_row target error t x)))
      ⊎ ((waiting b x ≡ false) × (y ≡ x))

  found_in_pass :
      (p : Key → Bool) (ds : List Deployment) (c : ℕ) {x : Deployment}
      → find? (λ d. p (key d)) ds ≡ some x
      → (y : Deployment) × (find? (λ d. p (key d)) (one_pass env b target error ds c).0 ≡ some y)
        × Passed x y
  unfolding one_pass left_row
  found_in_pass p [] c h = cc
  found_in_pass p (d ∷ ds) c {x} h = elim (Bool-cases (waiting b d)) [
    | inl stale ↦ elim (find?-cons (λ e. p (key e)) d ds h) [
      | inl (e, same) ↦ rw stale (
          rw e (
            _,
            refl,
            inl (ap (waiting b) (sym same) ∙ stale, (_, ap (left_row target error _) same)),
          ))
      | inr (e, later) ↦
          let (y, found, passed) = found_in_pass p ds _ later in rw stale (rw e (y, found, passed))
    ]
    | inr kept ↦ elim (find?-cons (λ e. p (key e)) d ds h) [
      | inl (e, same) ↦ rw kept (rw e (d, refl, inr (ap (waiting b) (sym same) ∙ kept, same)))
      | inr (e, later) ↦
          let (y, found, passed) = found_in_pass p ds c later in rw kept (rw e (y, found, passed))
    ]
  ]

  -- A row of the batch that waits or is over, is over after the pass.
  Passed-Ended :
      (x y : Deployment)
      → x.batch_id ≡ b
      → is_terminal target ≡ true
      → (x.status ≡ queued) ⊎ Ended x
      → Passed x y
      → Ended y
  unfolding left_row waiting
  Passed-Ended x y own final settled (inl (stale, (t, same))) =
      subst Ended (sym same) (final, λ e. cc)
  Passed-Ended x y own final (inr ended) (inr (kept, same)) = subst Ended (sym same) ended
  Passed-Ended x y own final (inl waits) (inr (kept, same)) =
      let stale : waiting b x ≡ true =
        ap (λ st. elim st as (λ z. Bool) [ queued ↦ x.batch_id == b | _ ↦ false ]) waits
        ∙ (==_iff x.batch_id b).1 own in
      cc

-- The row of a device in the batch is over.
abbrev pub Over : ℕ → Db → ℕ → Type 0
Over b db dev = (y : Deployment) × (find_in_batch b dev db ≡ some y) × Ended y

module _ (env : Env) (net : Net) (b : ℕ) where
  Total-finish_rows :
      (target : Status) (error : Text) (ds : List Deployment)
      → Total (finish_rows env target error ds)
  unfolding finish_rows end_or_now
  Total-finish_rows target error [] = total_ret tt
  Total-finish_rows target error (d ∷ ds) =
      Total-bind _ (end_time d.end_time)
        λ t. Total-bind _ (Total-modify _) λ u. Total-finish_rows target error ds
    where
      end_time : (end : Option ℕ) → Total (end_or_now env end)
      end_time none = Total-utcnow env
      end_time (some t) = total_ret t

  finalize-Total : (result : BatchResult) → Total (finalize_batch_status env (some b) result)
  unfolding finalize_batch_status
  finalize-Total result = Total-bind _ (Total-gets _) λ stale. Total-finish_rows _ _ stale

  finalize-Over :
      (result : BatchResult) (dev : ℕ) (s : State)
      → Distinct (keys s.db)
      → Settled (find_in_batch b dev s.db)
      → Over b (run net (finalize_batch_status env (some b) result) s).1.db dev
  unfolding with_table find_in_batch
  finalize-Over result dev s u (x, found, settled) =
      let own : x.batch_id ≡ b =
        let passes : (x.batch_id == b) && (x.device_id == dev) ≡ true =
          find?-sound (λ (y : Deployment). in_batch b dev (key y)) s.db.deployments found in
        ground arith in
      let (y, there, passed) =
        found_in_pass env b (left_status result) (left_error result) (in_batch b dev)
          s.db.deployments s.db.clock_reads found in
      rw (finalize-one_pass env net b result s u) (
        y,
        there,
        Passed-Ended env b _ (left_error result) x y own (left_status-terminal result) settled
            passed,
      )

  -- After the deployment, given what it left in the rows.
  after_batch-Over :
      (ids : List ℕ) (ks : List Key) (o : Option (Py BatchResult × State))
      {end : TaskEnd BatchResult} {s' : State}
      → Distinct ks
      → NoError o
      → All (λ dev. IfEnded (λ s. (keys s.db ≡ ks) × Settled (find_in_batch b dev s.db)) o) ids
      → after_batch env net b o ≡ some (end, s')
      → ((r : BatchResult) × (end ≡ returned r)) × All (Over b s'.db) ids
  unfolding after_batch after_finalize
  after_batch-Over ids ks none u ok_result good e = cc
  after_batch-Over ids ks (some (raised x, s)) u (r, wrong) good e = cc
  after_batch-Over ids ks (some (ok result, s)) {end} {s'} u ok_result good e =
      finish (run net (finalize_batch_status env (some b) result) s) refl e
    where
      each :
          (js : List ℕ)
          → All (λ dev. (keys s.db ≡ ks) × Settled (find_in_batch b dev s.db)) js
          → All (Over b (run net (finalize_batch_status env (some b) result) s).1.db) js
      each [] h = tt
      each (dev ∷ js) h =
          (finalize-Over result dev s (subst Distinct (sym h.0.0) u) h.0.1, each js h.1)

      finish :
          (f : Py (Unit {0}) × State)
          → run net (finalize_batch_status env (some b) result) s ≡ f
          → ◌≡◌ {A = Option (TaskEnd BatchResult × State)}
              (some (after_finalize env net result f))
              (some (end, s'))
          → ((r : BatchResult) × (end ≡ returned r)) × All (Over b s'.db) ids
      finish (ok v, s₁) e₁ e₂ =
          let pair : ◌≡◌ {A = TaskEnd BatchResult × State} (returned result, s₁) (end, s') = cc in
          (
            (result, ap (λ q. q.0) (sym pair)),
            subst (λ x. All (Over b x.db) ids) (ap (λ q. q.1) e₁ ∙ ap (λ q. q.1) pair)
                (each ids good),
          )
      finish (raised x, s₁) e₁ e₂ =
          let (a, s₂, done) = run-Total net s (finalize-Total result) in cc

  after_batch-ends :
      (o : Option (Py BatchResult × State)) {r : Py BatchResult × State}
      → o ≡ some r
      → (end : TaskEnd BatchResult) × (s' : State) × (after_batch env net b o ≡ some (end, s'))
  unfolding after_batch
  after_batch-ends none e = cc
  after_batch-ends (some (raised x, s)) e = (_, _, refl)
  after_batch-ends (some (ok result, s)) e = (_, _, refl)

module _ (env : Env) (net : Net) (b : ℕ) (version strategy : String) (user : Text) (ids : List ℕ)
    (s : State) (distinct : Distinct (keys s.db)) (unique : Unique ids)
    (rows : All (Queued b s.db) ids) where
  -- If the ids of the deployment rows are distinct, no device is listed twice and each device has a
  -- queued row in the batch, then under every strategy and schedule under which the task of the
  -- batch ends, it returns a result and asks for no retry, and the row of every device is over:
  -- its status is SUCCESS, FAILED or ROLLBACK and its end time is set, whatever the devices answer
  -- or raise.
  pub validate_and_deploy-Over :
      (schedule : List ℕ) {end : TaskEnd BatchResult} {s' : State}
      → validate_and_deploy_task env net schedule ids version strategy b user s ≡ some (end, s')
      → ((r : BatchResult) × (end ≡ returned r)) × All (Over b s'.db) ids
  unfolding validate_and_deploy_task
  validate_and_deploy-Over schedule e =
      after_batch-Over env net b ids (keys s.db) _ distinct
        (deploy-NoError env net version b user strategy schedule ids s)
        (All-map ids
          (λ dev (x, found, waits, _).
            deploy-Good env net version b user (keys s.db) distinct dev strategy schedule ids s
              unique (All-map ids (λ j (y, has, _, _). has_row b j s.db has) rows)
              (refl, (x, found, inl waits)))
          rows)
        e

  -- Under the same conditions there is a schedule under which the task ends so.
  pub validate_and_deploy-ends :
      (schedule : List ℕ) × (r : BatchResult) × (s' : State) × (validate_and_deploy_task env net
          schedule ids version strategy b user s
        ≡ some (returned r, s'))
      × All (Over b s'.db) ids
  unfolding validate_and_deploy_task
  validate_and_deploy-ends =
      let (schedule, out, e) = deploy-Returns env net version b user strategy ids s in
      let (end, s', done) = after_batch-ends env net b _ e in
      let ((r, good), over) = validate_and_deploy-Over schedule done in
      (schedule, r, s', done ∙ ap (λ x. some (x, s')) good, over)
