-- ===== src/Proc/Total.antt =====
-- Coroutines that raise nothing, whatever the device answers or raises.
use netdeploy.Base.{◌≡◌, refl, Bool, true, false, if◌then◌else◌}
use netdeploy.Text.{Text}
use netdeploy.Py.{Py, Exn, ok}
use netdeploy.Db.{Db}
use netdeploy.Proc.{
  State, Proc, ret, throw, await, query, update, ◌>>=◌, try_except, try_finally, attempt, Net, run,
  Call, gets, modify,
}

pub data Total {A : Type 0} : Proc A → Type 0 where
  total_ret : (a : A) → Total (ret a)
  total_await :
      (c : Call) (k : Py Text → Proc A) → ((reply : Py Text) → Total (k reply)) → Total (await c k)
  total_query : (k : Db → Proc A) → ((d : Db) → Total (k d)) → Total (query k)
  total_update : (f : Db → Db) (p : Proc A) → Total p → Total (update f p)

pub Total-bind :
    {A B : Type 0} {p : Proc A} (f : A → Proc B)
    → Total p
    → ((a : A) → Total (f a))
    → Total (p >>= f)
unfolding ◌>>=◌
Total-bind f (total_ret a) h = h a
Total-bind f (total_await c k t) h = total_await c _ (λ reply. Total-bind f (t reply) h)
Total-bind f (total_query k t) h = total_query _ (λ d. Total-bind f (t d) h)
Total-bind f (total_update g p t) h = total_update g _ (Total-bind f t h)

-- A handler that raises nothing makes any body total.
pub Total-try_except :
    {A : Type 0} (p : Proc A) (handler : Exn → Proc A)
    → ((e : Exn) → Total (handler e))
    → Total (try_except p handler)
unfolding try_except
Total-try_except (ret a) handler h = total_ret a
Total-try_except (throw e) handler h = h e
Total-try_except (await c k) handler h =
    total_await c _ (λ reply. Total-try_except (k reply) handler h)
Total-try_except (query k) handler h = total_query _ (λ d. Total-try_except (k d) handler h)
Total-try_except (update g p) handler h = total_update g _ (Total-try_except p handler h)

pub Total-try_finally :
    {A : Type 0} {p : Proc A} (q : Proc (Unit {0})) → Total p → Total q → Total (try_finally p q)
unfolding try_finally
Total-try_finally q (total_ret a) h = Total-bind _ h (λ u. total_ret a)
Total-try_finally q (total_await c k t) h =
    total_await c _ (λ reply. Total-try_finally q (t reply) h)
Total-try_finally q (total_query k t) h = total_query _ (λ d. Total-try_finally q (t d) h)
Total-try_finally q (total_update g p t) h = total_update g _ (Total-try_finally q t h)

pub Total-attempt : {A : Type 0} (p : Proc A) → Total (attempt p)
unfolding attempt
Total-attempt (ret a) = total_ret _
Total-attempt (throw e) = total_ret _
Total-attempt (await c k) = total_await c _ (λ reply. Total-attempt (k reply))
Total-attempt (query k) = total_query _ (λ d. Total-attempt (k d))
Total-attempt (update g p) = total_update g _ (Total-attempt p)

pub Total-if :
    {A : Type 0} (test : Bool) {p q : Proc A} → Total p → Total q → Total (if test then p else q)
Total-if true h k = h
Total-if false h k = k

pub Total-gets : {A : Type 0} (f : Db → A) → Total (gets f)
Total-gets f = total_query _ (λ d. total_ret (f d))

pub Total-modify : (f : Db → Db) → Total (modify f)
Total-modify f = total_update f _ (total_ret tt)

pub run-Total :
    {A : Type 0} (net : Net) {p : Proc A} (s : State)
    → Total p
    → (a : A) × (s' : State) × (run net p s ≡ (ok a, s'))
unfolding run
run-Total net s (total_ret a) = (a, s, refl)
run-Total net s (total_await c k t) = run-Total net _ (t (net s.wire c))
run-Total net s (total_query k t) = run-Total net s (t s.db)
run-Total net s (total_update f p t) = run-Total net _ t
