-- ===== src/Gather.antt =====
-- `asyncio.gather`: the tasks start in order, and each runs until it awaits a call. A schedule
-- then names the task whose reply arrives next; a call takes effect when its reply arrives.
pub mod Offline
pub mod Logic
pub mod Ends
use netdeploy.Base.{ℕ, zero, suc, List, [], ◌∷◌, Option, none, some}
use netdeploy.Py.{Py, ok, raised}
use netdeploy.Db.{Db}
use netdeploy.Proc.{State, Proc, ret, throw, await, query, update, Net, sent}

module _ {A : Type 0} where
  -- up to the next await, or to the end
  unfoldable pub settle : Proc A → Db → Proc A × Db
  settle (ret a) d = (ret a, d)
  settle (throw e) d = (throw e, d)
  settle (await c k) d = (await c k, d)
  settle (query k) d = settle (k d) d
  settle (update f p) d = settle p (f d)

  -- One reply arrives; a task that is done stays as it is.
  unfoldable pub resume : Net → Proc A → State → Proc A × State
  unfolding settle
  resume net (await c k) s =
      let r = net s.wire c in let (p, d) = settle (k r) s.db in (p, record (sent c r s) { db = d })
  resume net p s = (p, s)

  unfoldable pub start_all : List (Proc A) → Db → List (Proc A) × Db
  unfolding settle
  start_all [] d = ([], d)
  start_all (p ∷ ps) d = let (q, d₁) = settle p d in let (qs, d₂) = start_all ps d₁ in (q ∷ qs, d₂)

  -- A number that names no task changes nothing.
  unfoldable pub resume_at : Net → ℕ → List (Proc A) → State → List (Proc A) × State
  unfolding resume
  resume_at net i [] s = ([], s)
  resume_at net zero (p ∷ ps) s = let (q, s₁) = resume net p s in (q ∷ ps, s₁)
  resume_at net (suc i) (p ∷ ps) s = let (qs, s₁) = resume_at net i ps s in (p ∷ qs, s₁)

  unfoldable pub follow : Net → List ℕ → List (Proc A) → State → List (Proc A) × State
  unfolding resume_at
  follow net [] ps s = (ps, s)
  follow net (i ∷ schedule) ps s = let (qs, s₁) = resume_at net i ps s in follow net schedule qs s₁

  outcome : Proc A → Option (Py A)
  outcome (ret a) = some (ok a)
  outcome (throw e) = some (raised e)
  outcome _ = none

  cons_outcome : Option (Py A) → Option (List (Py A)) → Option (List (Py A))
  cons_outcome (some o) (some os) = some (o ∷ os)
  cons_outcome _ _ = none

  -- the results in the order of the tasks, once all are done
  unfoldable pub outcomes : List (Proc A) → Option (List (Py A))
  unfolding outcome cons_outcome
  outcomes [] = some []
  outcomes (p ∷ ps) = cons_outcome (outcome p) (outcomes ps)

  finished : Option (List (Py A)) → State → Option (List (Py A) × State)
  finished none s = none
  finished (some os) s = some (os, s)

  -- `none` if the schedule leaves a task unfinished
  unfoldable pub gather : Net → List ℕ → List (Proc A) → State → Option (List (Py A) × State)
  unfolding start_all follow outcomes finished
  gather net schedule ps s =
      let (qs, d) = start_all ps s.db in
      let (rs, s₁) = follow net schedule qs (record s { db = d }) in finished (outcomes rs) s₁
