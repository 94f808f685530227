-- ===== src/Routes/Started.antt =====
-- api/routes/deployments.py: how a request for a deployment ends, and the batch that it starts,
-- up to the end of its task.
use netdeploy.Base.{ℕ, ◌+◌, String, ◌≡◌, ◌≢◌, false, List, ◌∷◌, map, length, none, All, keep}
use netdeploy.Text.{Text}
use netdeploy.Py.{Py, ok}
use netdeploy.Db.{Db, Deployment, find_device}
use netdeploy.Proc.{State, Proc, Net, run}
use netdeploy.Snapshots.{Env}
use netdeploy.Orchestrator.Device.{not_found}
use netdeploy.Batches.{misses_config}
use netdeploy.Batches.Created.{rows_from}
use netdeploy.Batches.Queued.{Queued}
use netdeploy.Routes.{message, missing_configs, Reply, refused}
use netdeploy.Routes.Deployments.{DeployJob, Triggered, first_id, enqueue_deployment}

-- the devices of the request, up to the first that does not exist
pub data FirstUnknown (db : Db) : List ℕ → ℕ → Type 0 where
  here : (id : ℕ) (ids : List ℕ) → find_device id db ≡ none → FirstUnknown db (id ∷ ids) id
  later :
      (known : ℕ) (ids : List ℕ) (id : ℕ)
      → find_device known db ≢ none
      → FirstUnknown db ids id
      → FirstUnknown db (known ∷ ids) id

module _ (env : Env) (net : Net) (delay : DeployJob → Proc Text) (user : Text) (ids : List ℕ)
    (version strategy : String) where
  -- The ends of a request: a refusal leaves the state as it was.
  pub data TriggerEnd (s : State) : Py (Reply Triggered) × State → Type 0 where
    unknown_device :
        (id : ℕ)
        → FirstUnknown s.db ids id
        → TriggerEnd s (ok (refused 404 (message (not_found id))), s)
    no_configs :
        (id : ℕ) (rest : List ℕ)
        → All (λ i. find_device i s.db ≢ none) ids
        → keep (misses_config s.db version) ids ≡ id ∷ rest
        → TriggerEnd s (ok (refused 422 (missing_configs (id ∷ rest) version)), s)
    enqueued :
        All (λ i. find_device i s.db ≢ none) ids
        → All (λ i. misses_config s.db version i ≡ false) ids
        → TriggerEnd s (run net (enqueue_deployment env delay user ids version strategy) s)

-- Celery takes every job, and leaves the session alone.
abbrev pub Takes : {J : Type 0} → Net → (J → Proc Text) → Type 0
Takes {J} net delay = (job : J) (s : State) → (t : Text) × (run net (delay job) s ≡ (ok t, s))

module _ (env : Env) (net : Net) (delay : DeployJob → Proc Text) (user : Text) (ids : List ℕ)
    (version strategy : String) (takes : Takes net delay) where
  -- the state in which the rows are created
  abbrev drawn : State → State
  drawn s = record s { db = record s.db { ids_drawn = s.db.ids_drawn + 1 } }

  abbrev rows_of : State → List Deployment
  rows_of s =
      rows_from env (env.fresh s.db.ids_drawn) version strategy ids (s.db.ids_drawn + 1)
        s.db.clock_reads

  abbrev reply_of : State → Text → Triggered
  reply_of s task = record {
    batch_id = env.fresh s.db.ids_drawn;
    deployment_id = first_id (env.fresh s.db.ids_drawn) (rows_of s);
    task_id = task;
    strategy = strategy;
    device_count = length ids;
    deployment_ids = map (λ d. d.id) (rows_of s);
  }
