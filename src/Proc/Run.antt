-- ===== src/Proc/Run.antt =====
-- Runs of coroutines in sequence.
use netdeploy.Base.{◌≡◌, refl}
use netdeploy.Py.{Py, ok, raised}
use netdeploy.Proc.{State, Proc, ret, throw, await, query, update, ◌>>=◌, Net, sent, run}

-- what runs after a first part
unfoldable pub and_then : {A B : Type 0} → Net → (A → Proc B) → Py A × State → Py B × State
unfolding run
and_then net f (ok a, s) = run net (f a) s
and_then net f (raised e, s) = (raised e, s)

pub run-bind :
    {A B : Type 0} (net : Net) (p : Proc A) (f : A → Proc B) (s : State)
    → run net (p >>= f) s ≡ and_then net f (run net p s)
unfolding run ◌>>=◌ and_then
run-bind net (ret a) f s = refl
run-bind net (throw e) f s = refl
run-bind net (await c k) f s = let r = net s.wire c in run-bind net (k r) f (sent c r s)
run-bind net (query k) f s = run-bind net (k s.db) f s
run-bind net (update g p) f s = run-bind net p f (record s { db = g s.db })
