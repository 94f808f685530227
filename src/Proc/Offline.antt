-- ===== src/Proc/Offline.antt =====
-- Coroutines that call no device.
use netdeploy.Base.{◌≡◌, refl, Bool, true, false, if◌then◌else◌}
use netdeploy.Py.{ok, raised, Exn}
use netdeploy.Db.{Db}
use netdeploy.Proc.{State, Proc, ret, throw, query, update, ◌>>=◌, attempt, gets, modify, Net, run}

pub data Offline {A : Type 0} : Proc A → Type 0 where
  offline_ret : (a : A) → Offline (ret a)
  offline_throw : (e : Exn) → Offline (throw e)
  offline_query : (k : Db → Proc A) → ((d : Db) → Offline (k d)) → Offline (query k)
  offline_update : (f : Db → Db) (p : Proc A) → Offline p → Offline (update f p)

pub Offline-bind :
    {A B : Type 0} {p : Proc A} (f : A → Proc B)
    → Offline p
    → ((a : A) → Offline (f a))
    → Offline (p >>= f)
unfolding ◌>>=◌
Offline-bind f (offline_ret a) h = h a
Offline-bind f (offline_throw e) h = offline_throw e
Offline-bind f (offline_query k q) h = offline_query _ (λ d. Offline-bind f (q d) h)
Offline-bind f (offline_update g p q) h = offline_update g _ (Offline-bind f q h)

pub Offline-attempt : {A : Type 0} {p : Proc A} → Offline p → Offline (attempt p)
unfolding attempt
Offline-attempt (offline_ret a) = offline_ret (ok a)
Offline-attempt (offline_throw e) = offline_ret (raised e)
Offline-attempt (offline_query k q) = offline_query _ (λ d. Offline-attempt (q d))
Offline-attempt (offline_update g p q) = offline_update g _ (Offline-attempt q)

pub Offline-gets : {A : Type 0} (f : Db → A) → Offline (gets f)
Offline-gets f = offline_query _ (λ d. offline_ret (f d))

pub Offline-modify : (f : Db → Db) → Offline (modify f)
Offline-modify f = offline_update f _ (offline_ret tt)

pub Offline-if :
    {A : Type 0} (test : Bool) {p q : Proc A}
    → Offline p
    → Offline q
    → Offline (if test then p else q)
Offline-if true h k = h
Offline-if false h k = k

pub Offline-then :
    {A : Type 0} {test : Bool} {p : Proc A} (q : Proc A)
    → test ≡ true
    → Offline p
    → Offline (if test then p else q)
Offline-then q e h = rw e h

pub run-Offline :
    {A : Type 0} (net : Net) {p : Proc A} (s : State) → Offline p → (run net p s).1.wire ≡ s.wire
unfolding run
run-Offline net s (offline_ret a) = refl
run-Offline net s (offline_throw e) = refl
run-Offline net s (offline_query k q) = run-Offline net s (q s.db)
run-Offline net s (offline_update f p q) = run-Offline net (record s { db = f s.db }) q
