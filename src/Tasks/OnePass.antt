-- ===== src/Tasks/OnePass.antt =====
-- tasks/deployment.py: `_finalize_batch_status` against a definition in one pass over the table.
use netdeploy.Base.{
  ℕ, zero, suc, ◌+◌, ◌≡◌, refl, sym, ap, ◌∙◌, Bool, true, false, ◌&&◌, List, [], ◌∷◌, map, Option,
  none, some, ◌==◌, ==_iff, keep, if◌then◌else◌, Bool-cases, inl, inr, All,
}
use netdeploy.Text.{Text, codes}
use netdeploy.Py.{ok}
use netdeploy.Db.{
  queued, in_progress, success, rollback, failed, Deployment, Status, modify_first,
  modify_deployment,
}
use netdeploy.Db.Rows.{key, keys, owner, owner-cons, Distinct}
use netdeploy.Proc.{State, Proc, ◌>>=◌, Net, run}
use netdeploy.Snapshots.{Env, utcnow}
use netdeploy.Orchestrator.{
  BatchResult, rejected, canary_failed, canary_unhealthy, canary_done, rolling_failed,
  rolling_unhealthy, rolled_back, all_deployed, status_of, error_of,
}
use netdeploy.Tasks.{
  is_stale, is_queued, old_or, stale_rows, finished_row, end_or_now, finish_rows,
  finalize_batch_status, row_status, error_or_default,
}

-- the table of deployments, and the number of times that the clock was read
abbrev pub Table : Type 0
Table = List Deployment × ℕ

and_true : (t : Bool) → t && true ≡ t
and_true true = refl
and_true false = refl

and_false : (t : Bool) → t && false ≡ false
and_false true = refl
and_false false = refl

unfoldable pub with_table : State → Table → State
with_table s (rows, c) = record s { db = record s.db { deployments = rows; clock_reads = c } }

abbrev pub cons_row : Deployment → Table → Table
cons_row d (ds, c) = (d ∷ ds, c)

-- a queued row of the batch
unfoldable pub waiting : ℕ → Deployment → Bool
waiting b d = elim d.status [ queued ↦ d.batch_id == b | _ ↦ false ]

is_stale-waiting : (b : ℕ) (d : Deployment) → is_stale b d ≡ waiting b d
unfolding is_stale waiting is_queued
is_stale-waiting b d = go d.status
  where
    go :
        (st : Status)
        → (d.batch_id == b) && is_queued st
          ≡ elim st as (λ x. Bool) [ queued ↦ d.batch_id == b | _ ↦ false ]
    go queued = and_true (d.batch_id == b)
    go in_progress = and_false (d.batch_id == b)
    go success = and_false (d.batch_id == b)
    go rollback = and_false (d.batch_id == b)
    go failed = and_false (d.batch_id == b)

-- What the result of a batch says of a row that was not reached.
unfoldable pub left_status : BatchResult → Status
left_status (canary_unhealthy b e) = rollback
left_status (rolled_back b ids) = rollback
left_status (all_deployed b ids) = success
left_status (canary_done b ids zero) = success
left_status _ = failed

-- The error of a result, where it has one that is not empty.
unfoldable pub left_error : BatchResult → Text
left_error (rejected (c ∷ e)) = c ∷ e
left_error (canary_failed b (c ∷ e)) = c ∷ e
left_error (canary_unhealthy b (c ∷ e)) = c ∷ e
left_error (rolling_failed b done id (some (c ∷ e))) = c ∷ e
left_error (rolling_unhealthy b done (c ∷ e)) = c ∷ e
left_error (rolled_back b ids) = codes "Atomic deployment failed; all devices rolled back"
left_error _ = codes "Deployment did not complete"

-- An error that is there stays; an empty one does not count.
unfoldable pub first_error : Option Text → Text → Text
first_error (some (c ∷ t)) error = c ∷ t
first_error _ error = error

-- A row that was not reached, after the pass.
unfoldable pub left_row : Status → Text → ℕ → Deployment → Deployment
unfolding first_error
left_row target error end d = record d {
  status = target;
  error_message = some (first_error d.error_message error);
  end_time = some end;
}

row_status-left : (r : BatchResult) → row_status (status_of r) ≡ left_status r
unfolding row_status status_of left_status
row_status-left (rejected e) = refl
row_status-left (canary_failed b e) = refl
row_status-left (canary_unhealthy b e) = refl
row_status-left (canary_done b ids zero) = refl
row_status-left (canary_done b ids (suc n)) = refl
row_status-left (rolling_failed b done id e) = refl
row_status-left (rolling_unhealthy b done e) = refl
row_status-left (rolled_back b ids) = refl
row_status-left (all_deployed b ids) = refl

error-left : (r : BatchResult) → error_or_default (error_of r) ≡ left_error r
unfolding error_or_default error_of left_error
error-left (rejected []) = refl
error-left (rejected (c ∷ e)) = refl
error-left (canary_failed b []) = refl
error-left (canary_failed b (c ∷ e)) = refl
error-left (canary_unhealthy b []) = refl
error-left (canary_unhealthy b (c ∷ e)) = refl
error-left (canary_done b ids n) = refl
error-left (rolling_failed b done id none) = refl
error-left (rolling_failed b done id (some [])) = refl
error-left (rolling_failed b done id (some (c ∷ e))) = refl
error-left (rolling_unhealthy b done []) = refl
error-left (rolling_unhealthy b done (c ∷ e)) = refl
error-left (rolled_back b ids) = refl
error-left (all_deployed b ids) = refl

old_or-first : (old : Option Text) (error : Text) → old_or old error ≡ some (first_error old error)
unfolding old_or first_error
old_or-first none error = refl
old_or-first (some []) error = refl
old_or-first (some (c ∷ t)) error = refl

module _ (env : Env) (b : ℕ) (target : Status) (error : Text) where
  -- the end time of a row, and the clock after it
  end_at : Option ℕ → ℕ → ℕ
  end_at none c = env.now c
  end_at (some t) c = t

  clock_after : Option ℕ → ℕ → ℕ
  clock_after none c = c + 1
  clock_after (some t) c = c

  -- Every queued row of the batch is finished, and every other row is kept.
  unfoldable pub one_pass : List Deployment → ℕ → Table
  unfolding end_at clock_after waiting left_row
  one_pass [] c = ([], c)
  one_pass (d ∷ ds) c =
      if waiting b d
      then cons_row (left_row target error (end_at d.end_time c) d)
          (one_pass ds (clock_after d.end_time c))
      else cons_row d (one_pass ds c)

  -- the assignments that `finish_rows` makes, on the table alone
  assign_all : List Deployment → Table → Table
  unfolding end_at clock_after
  assign_all [] t = t
  assign_all (d ∷ ds) (rows, c) = assign_all ds (
    modify_first d.id (finished_row target error (end_at d.end_time c)) rows,
    clock_after d.end_time c,
  )

  run-end_or_now :
      (net : Net) (end : Option ℕ) (f : ℕ → Proc (Unit {0})) (s : State)
      → run net (end_or_now env end >>= f) s
        ≡ run net
            (f (end_at end s.db.clock_reads))
            (with_table s (s.db.deployments, clock_after end s.db.clock_reads))
  unfolding run ◌>>=◌ end_or_now utcnow with_table end_at clock_after
  run-end_or_now net none f s = refl
  run-end_or_now net (some t) f s = refl

  run-finish_rows :
      (net : Net) (ds : List Deployment) (s : State)
      → run net (finish_rows env target error ds) s
        ≡ (ok tt, with_table s (assign_all ds (s.db.deployments, s.db.clock_reads)))
  unfolding finish_rows run ◌>>=◌ modify_deployment assign_all with_table
  run-finish_rows net [] s = refl
  run-finish_rows net (d ∷ ds) s =
      run-end_or_now net d.end_time _ s
      ∙ run-finish_rows net ds (
          with_table s (
            modify_first d.id (finished_row target error (end_at d.end_time s.db.clock_reads))
                s.db.deployments,
            clock_after d.end_time s.db.clock_reads,
          ))

  -- Assignments to other rows keep the first row.
  assign_all-cons :
      (h : Deployment) (ds rows : List Deployment) (c : ℕ)
      → All (λ d. (h.id == d.id) ≡ false) ds
      → assign_all ds (h ∷ rows, c) ≡ cons_row h (assign_all ds (rows, c))
  unfolding assign_all modify_first
  assign_all-cons h [] rows c differ = refl
  assign_all-cons h (d ∷ ds) rows c differ = rw differ.0 (assign_all-cons h ds _ _ differ.1)

  -- No stale row behind a row has its id.
  stale_differ :
      (i : ℕ) (ds : List Deployment)
      → owner i (map key ds) ≡ none
      → All (λ (d : Deployment). (i == d.id) ≡ false) (keep (is_stale b) ds)
  stale_differ i [] h = tt
  stale_differ i (d ∷ ds) h =
      let (differ, rest) = owner-cons i (key d) (map key ds) h in
      elim (Bool-cases (is_stale b d)) [
        | inl e ↦ rw e (differ, stale_differ i ds rest)
        | inr e ↦ rw e (stale_differ i ds rest)
      ]

  assign_all-head :
      (d : Deployment) (stale ds : List Deployment) (c : ℕ)
      → assign_all (d ∷ stale) (d ∷ ds, c)
        ≡ assign_all stale
            (finished_row target error (end_at d.end_time c) d ∷ ds, clock_after d.end_time c)
  unfolding assign_all modify_first
  assign_all-head d stale ds c =
      ap
        (λ t. assign_all stale (
          if t
              then finished_row target error (end_at d.end_time c) d ∷ ds
              else d ∷ modify_first d.id (finished_row target error (end_at d.end_time c)) ds,
          clock_after d.end_time c,
        ))
        ((==_iff d.id d.id).1 refl)

  assign_all-stale :
      (ds : List Deployment) (c : ℕ)
      → Distinct (map key ds)
      → assign_all (keep (is_stale b) ds) (ds, c) ≡ one_pass ds c
  unfolding assign_all one_pass finished_row left_row
  assign_all-stale [] c u = refl
  assign_all-stale (d ∷ ds) c u = elim (Bool-cases (is_stale b d)) [
    | inl e ↦
        rw (e, sym (is_stale-waiting b d) ∙ e)
          (assign_all-head d (keep (is_stale b) ds) ds c
            ∙ assign_all-cons (finished_row target error (end_at d.end_time c) d)
                (keep (is_stale b) ds) ds _ (stale_differ d.id ds u.0)
            ∙ ap (cons_row (finished_row target error (end_at d.end_time c) d))
                (assign_all-stale ds _ u.1)
            ∙ ap
                (λ m.
                  cons_row
                    (record d {
                      status = target;
                      error_message = m;
                      end_time = some (end_at d.end_time c);
                    })
                    (one_pass ds (clock_after d.end_time c)))
                (old_or-first d.error_message error))
    | inr e ↦
        rw (e, sym (is_stale-waiting b d) ∙ e)
          (assign_all-cons d (keep (is_stale b) ds) ds c (stale_differ d.id ds u.0)
            ∙ ap (cons_row d) (assign_all-stale ds c u.1))
  ]

module _ (env : Env) (net : Net) (b : ℕ) (result : BatchResult) where
  -- If the ids of the deployment rows are distinct, then the finalization of a batch is one pass
  -- over the rows: each queued row of the batch gets the status ROLLBACK if the batch was rolled
  -- back, SUCCESS if it succeeded for all devices and FAILED otherwise, keeps its error or gets the
  -- one of the result or else the default text, and gets an end time where it has none; all other
  -- rows and all other tables are kept.
  pub finalize-one_pass :
      (s : State)
      → Distinct (keys s.db)
      → run net (finalize_batch_status env (some b) result) s ≡ (
        ok tt,
        with_table s (
            one_pass env b
              (left_status result)
              (left_error result)
              s.db.deployments
              s.db.clock_reads),
      )
  unfolding finalize_batch_status stale_rows run ◌>>=◌
  finalize-one_pass s u =
      run-finish_rows env b _ _ net _ s
      ∙ ap (λ t. (ok tt, with_table s t))
          (assign_all-stale env b (row_status (status_of result))
              (error_or_default (error_of result)) s.db.deployments s.db.clock_reads u
            ∙ (ap
                  (λ x.
                    one_pass env b x (error_or_default (error_of result)) s.db.deployments
                      s.db.clock_reads)
                  (row_status-left result)
                ∙ ap (λ x. one_pass env b (left_status result) x s.db.deployments s.db.clock_reads)
                    (error-left result)))
