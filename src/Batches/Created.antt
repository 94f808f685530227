-- ===== src/Batches/Created.antt =====
-- api/deployment_helpers.py: what the creation of a batch leaves in the database.
use netdeploy.Base.{ℕ, suc, ◌+◌, String, ◌≡◌, refl, List, [], ◌∷◌, ◌++◌, length, arith}
use mathlib.Core.List.{append-nil, append_assoc}
use netdeploy.Py.{ok}
use netdeploy.Db.{Deployment, add_deployment}
use netdeploy.Proc.{State, ◌>>=◌, Net, run}
use netdeploy.Proc.Run.{and_then, run-bind}
use netdeploy.Snapshots.{Env, utcnow, uuid4}
use netdeploy.Batches.{new_row, create_deployment_records}

right_zero : (n : ℕ) → n + 0 ≡ n
right_zero n = omega arith

one_more : (n k : ℕ) → n + 1 + k ≡ n + suc k
one_more n k = omega arith

module _ (env : Env) (batch_id : ℕ) (version strategy : String) where
  -- one row for each device, with the ids and times that are drawn from `n` and `c` on
  abbrev pub rows_from : List ℕ → ℕ → ℕ → List Deployment
  rows_from [] n c = []
  rows_from (device_id ∷ device_ids) n c =
      new_row batch_id version strategy device_id (env.fresh n) (env.now c)
      ∷ rows_from device_ids (n + 1) (c + 1)

  abbrev pub with_rows : List ℕ → State → State
  with_rows ids s = record s {
    db = record s.db {
      deployments = s.db.deployments ++ rows_from ids s.db.ids_drawn s.db.clock_reads;
      clock_reads = s.db.clock_reads + length ids;
      ids_drawn = s.db.ids_drawn + length ids;
    };
  }

  -- The creation of a batch returns one queued row for each device, in order, and adds exactly
  -- these rows behind the others; their ids and times are the next ones, and nothing else changes.
  pub create-with_rows :
      (net : Net) (ids : List ℕ) (s : State)
      → run net (create_deployment_records env ids batch_id version strategy) s
        ≡ (ok (rows_from ids s.db.ids_drawn s.db.clock_reads), with_rows ids s)
  unfolding create_deployment_records run ◌>>=◌ uuid4 utcnow add_deployment and_then
  create-with_rows net [] s =
      rw (append-nil s.db.deployments, right_zero s.db.clock_reads, right_zero s.db.ids_drawn) refl
  create-with_rows net (id ∷ ids) s =
      let d =
        new_row batch_id version strategy id (env.fresh s.db.ids_drawn)
          (env.now s.db.clock_reads) in
      let s₁ : State = record s {
        db = record s.db {
          deployments = s.db.deployments ++ (d ∷ []);
          clock_reads = s.db.clock_reads + 1;
          ids_drawn = s.db.ids_drawn + 1;
        };
      } in
      rw
        (
          run-bind net (create_deployment_records env ids batch_id version strategy) _ s₁,
          create-with_rows net ids s₁,
        )
        (rw
          (
            append_assoc s.db.deployments (d ∷ [])
                (rows_from ids s₁.db.ids_drawn s₁.db.clock_reads),
            one_more s.db.clock_reads (length ids),
            one_more s.db.ids_drawn (length ids),
          )
          refl)
