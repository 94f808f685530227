-- ===== src/Proc/Logic.antt =====
-- A logic for coroutines that run beside others. `Inv` holds of the database at all times, and
-- the other tasks leave `view` alone; so a fact about the view survives every await.
use netdeploy.Base.{◌≡◌, refl, sym, ◌∙◌, Bool, true, false, if◌then◌else◌}
use mathlib.Core.Path.{subst}
use netdeploy.Text.{Text}
use netdeploy.Py.{Py, ok, raised, Exn}
use netdeploy.Db.{Db}
use netdeploy.Proc.{
  State, Proc, ret, throw, await, query, update, ◌>>=◌, try_except, try_finally, attempt, lift, Net,
  run, Call,
}
use netdeploy.Gather.{settle, resume}

module _ {R : Type 0} (Inv : Db → Type 0) (view : Db → R) where
  -- Whenever the view is `r` at the start, the task ends with a result and a view in `Q`.
  unfoldable pub Wp : {A : Type 0} → Proc A → (Py A → R → Type 0) → R → Type 0
  Wp (ret a) Q r = Q (ok a) r
  Wp (throw e) Q r = Q (raised e) r
  Wp (await c k) Q r = (reply : Py Text) → Wp (k reply) Q r
  Wp (query k) Q r = (d : Db) → Inv d → view d ≡ r → Wp (k d) Q r
  Wp (update f p) Q r = (d : Db) → Inv d → view d ≡ r → Inv (f d) × Wp p Q (view (f d))

  -- Every write keeps `Inv` and leaves the view alone.
  pub data Quiet {A : Type 0} : Proc A → Type 0 where
    quiet_ret : (a : A) → Quiet (ret a)
    quiet_throw : (e : Exn) → Quiet (throw e)
    quiet_await :
        (c : Call) (k : Py Text → Proc A)
        → ((reply : Py Text) → Quiet (k reply))
        → Quiet (await c k)
    quiet_query : (k : Db → Proc A) → ((d : Db) → Inv d → Quiet (k d)) → Quiet (query k)
    quiet_update :
        (f : Db → Db) (p : Proc A)
        → ((d : Db) → Inv d → Inv (f d) × (view (f d) ≡ view d))
        → Quiet p
        → Quiet (update f p)

  -- what a bind still has to show after its first part
  unfoldable pub After : {A B : Type 0} → (A → Proc B) → (Py B → R → Type 0) → Py A → R → Type 0
  After f Q (ok a) r = Wp (f a) Q r
  After f Q (raised e) r = Q (raised e) r

  pub Wp-bind :
      {A B : Type 0} (p : Proc A) (f : A → Proc B) (Q : Py B → R → Type 0) (r : R)
      → Wp p (After f Q) r
      → Wp (p >>= f) Q r
  unfolding Wp ◌>>=◌ After
  Wp-bind (ret a) f Q r h = h
  Wp-bind (throw e) f Q r h = h
  Wp-bind (await c k) f Q r h = λ reply. Wp-bind (k reply) f Q r (h reply)
  Wp-bind (query k) f Q r h = λ d i e. Wp-bind (k d) f Q r (h d i e)
  Wp-bind (update g p) f Q r h = λ d i e. ((h d i e).0, Wp-bind p f Q (view (g d)) (h d i e).1)

  -- what `try … except` still has to show after its body
  unfoldable pub Handled : {A : Type 0} → (Exn → Proc A) → (Py A → R → Type 0) → Py A → R → Type 0
  Handled h Q (ok a) r = Q (ok a) r
  Handled h Q (raised e) r = Wp (h e) Q r

  pub Wp-try_except :
      {A : Type 0} (p : Proc A) (handler : Exn → Proc A) (Q : Py A → R → Type 0) (r : R)
      → Wp p (Handled handler Q) r
      → Wp (try_except p handler) Q r
  unfolding Wp try_except Handled
  Wp-try_except (ret a) handler Q r h = h
  Wp-try_except (throw e) handler Q r h = h
  Wp-try_except (await c k) handler Q r h = λ reply. Wp-try_except (k reply) handler Q r (h reply)
  Wp-try_except (query k) handler Q r h = λ d i e. Wp-try_except (k d) handler Q r (h d i e)
  Wp-try_except (update g p) handler Q r h =
      λ d i e. ((h d i e).0, Wp-try_except p handler Q (view (g d)) (h d i e).1)

  -- A quiet task ends with any result, and the view that it began with.
  pub Quiet-Wp :
      {A : Type 0} {p : Proc A} (Q : Py A → R → Type 0) (r : R)
      → Quiet p
      → ((o : Py A) → Q o r)
      → Wp p Q r
  unfolding Wp
  Quiet-Wp Q r (quiet_ret a) h = h (ok a)
  Quiet-Wp Q r (quiet_throw e) h = h (raised e)
  Quiet-Wp Q r (quiet_await c k q) h = λ reply. Quiet-Wp Q r (q reply) h
  Quiet-Wp Q r (quiet_query k q) h = λ d i e. Quiet-Wp Q r (q d i) h
  Quiet-Wp Q r (quiet_update f p keeps q) h = λ d i e.
      ((keeps d i).0, Quiet-Wp Q (view (f d)) q (λ o. subst (Q o) (sym ((keeps d i).1 ∙ e)) (h o)))

  pub Quiet-bind :
      {A B : Type 0} {p : Proc A} (f : A → Proc B)
      → Quiet p
      → ((a : A) → Quiet (f a))
      → Quiet (p >>= f)
  unfolding ◌>>=◌
  Quiet-bind f (quiet_ret a) h = h a
  Quiet-bind f (quiet_throw e) h = quiet_throw e
  Quiet-bind f (quiet_await c k q) h = quiet_await c _ (λ reply. Quiet-bind f (q reply) h)
  Quiet-bind f (quiet_query k q) h = quiet_query _ (λ d i. Quiet-bind f (q d i) h)
  Quiet-bind f (quiet_update g p keeps q) h = quiet_update g _ keeps (Quiet-bind f q h)

  pub Quiet-try_except :
      {A : Type 0} {p : Proc A} (handler : Exn → Proc A)
      → Quiet p
      → ((e : Exn) → Quiet (handler e))
      → Quiet (try_except p handler)
  unfolding try_except
  Quiet-try_except handler (quiet_ret a) h = quiet_ret a
  Quiet-try_except handler (quiet_throw e) h = h e
  Quiet-try_except handler (quiet_await c k q) h =
      quiet_await c _ (λ reply. Quiet-try_except handler (q reply) h)
  Quiet-try_except handler (quiet_query k q) h =
      quiet_query _ (λ d i. Quiet-try_except handler (q d i) h)
  Quiet-try_except handler (quiet_update g p keeps q) h =
      quiet_update g _ keeps (Quiet-try_except handler q h)

  pub Quiet-attempt : {A : Type 0} {p : Proc A} → Quiet p → Quiet (attempt p)
  unfolding attempt
  Quiet-attempt (quiet_ret a) = quiet_ret (ok a)
  Quiet-attempt (quiet_throw e) = quiet_ret (raised e)
  Quiet-attempt (quiet_await c k q) = quiet_await c _ (λ reply. Quiet-attempt (q reply))
  Quiet-attempt (quiet_query k q) = quiet_query _ (λ d i. Quiet-attempt (q d i))
  Quiet-attempt (quiet_update g p keeps q) = quiet_update g _ keeps (Quiet-attempt q)

  pub Quiet-lift : {A : Type 0} (m : Py A) → Quiet (lift m)
  Quiet-lift (ok a) = quiet_ret a
  Quiet-lift (raised e) = quiet_throw e

  -- The logic is sound for a task that runs alone.
  pub run-Wp :
      {A : Type 0} (net : Net) (p : Proc A) (Q : Py A → R → Type 0) (s : State)
      → Inv s.db
      → Wp p Q (view s.db)
      → let (o, s') = run net p s in Inv s'.db × Q o (view s'.db)
  unfolding Wp run
  run-Wp net (ret a) Q s i h = (i, h)
  run-Wp net (throw e) Q s i h = (i, h)
  run-Wp net (await c k) Q s i h = run-Wp net (k (net s.wire c)) Q _ i (h (net s.wire c))
  run-Wp net (query k) Q s i h = run-Wp net (k s.db) Q s i (h s.db i refl)
  run-Wp net (update f p) Q s i h =
      run-Wp net p Q (record s { db = f s.db }) (h s.db i refl).0 (h s.db i refl).1

  -- It is sound for the steps between two awaits too.
  pub settle-Wp :
      {A : Type 0} (p : Proc A) (Q : Py A → R → Type 0) (d : Db)
      → Inv d
      → Wp p Q (view d)
      → let (q, d') = settle p d in Inv d' × Wp q Q (view d')
  unfolding Wp settle
  settle-Wp (ret a) Q d i h = (i, h)
  settle-Wp (throw e) Q d i h = (i, h)
  settle-Wp (await c k) Q d i h = (i, h)
  settle-Wp (query k) Q d i h = settle-Wp (k d) Q d i (h d i refl)
  settle-Wp (update f p) Q d i h = settle-Wp p Q (f d) (h d i refl).0 (h d i refl).1

  pub settle-Quiet :
      {A : Type 0} {p : Proc A} (d : Db)
      → Inv d
      → Quiet p
      → let (q, d') = settle p d in Inv d' × Quiet q × (view d' ≡ view d)
  unfolding settle
  settle-Quiet d i (quiet_ret a) = (i, quiet_ret a, refl)
  settle-Quiet d i (quiet_throw e) = (i, quiet_throw e, refl)
  settle-Quiet d i (quiet_await c k q) = (i, quiet_await c k q, refl)
  settle-Quiet d i (quiet_query k q) = settle-Quiet d i (q d i)
  settle-Quiet d i (quiet_update f p keeps q) =
      let (i', q', e) = settle-Quiet (f d) (keeps d i).0 q in (i', q', e ∙ (keeps d i).1)

  pub resume-Wp :
      {A : Type 0} (net : Net) (p : Proc A) (Q : Py A → R → Type 0) (s : State)
      → Inv s.db
      → Wp p Q (view s.db)
      → let (q, s') = resume net p s in Inv s'.db × Wp q Q (view s'.db)
  unfolding resume Wp
  resume-Wp net (await c k) Q s i h = settle-Wp (k (net s.wire c)) Q s.db i (h (net s.wire c))
  resume-Wp net (ret a) Q s i h = (i, h)
  resume-Wp net (throw e) Q s i h = (i, h)
  resume-Wp net (query k) Q s i h = (i, h)
  resume-Wp net (update f p) Q s i h = (i, h)

  pub resume-Quiet :
      {A : Type 0} (net : Net) {p : Proc A} (s : State)
      → Inv s.db
      → Quiet p
      → let (q, s') = resume net p s in Inv s'.db × Quiet q × (view s'.db ≡ view s.db)
  unfolding resume
  resume-Quiet net s i (quiet_await c k q) = settle-Quiet s.db i (q (net s.wire c))
  resume-Quiet net s i (quiet_ret a) = (i, quiet_ret a, refl)
  resume-Quiet net s i (quiet_throw e) = (i, quiet_throw e, refl)
  resume-Quiet net s i (quiet_query k q) = (i, quiet_query k q, refl)
  resume-Quiet net s i (quiet_update f p keeps q) = (i, quiet_update f p keeps q, refl)

  -- A finalizer that does nothing.
  pub Wp-try_finally :
      {A : Type 0} (p : Proc A) (Q : Py A → R → Type 0) (r : R)
      → Wp p Q r
      → Wp (try_finally p (ret tt)) Q r
  unfolding Wp try_finally
  Wp-try_finally (ret a) Q r h = h
  Wp-try_finally (throw e) Q r h = h
  Wp-try_finally (await c k) Q r h = λ reply. Wp-try_finally (k reply) Q r (h reply)
  Wp-try_finally (query k) Q r h = λ d i e. Wp-try_finally (k d) Q r (h d i e)
  Wp-try_finally (update g p) Q r h =
      λ d i e. ((h d i e).0, Wp-try_finally p Q (view (g d)) (h d i e).1)

  pub Quiet-try_finally : {A : Type 0} {p : Proc A} → Quiet p → Quiet (try_finally p (ret tt))
  unfolding try_finally
  Quiet-try_finally (quiet_ret a) = quiet_ret a
  Quiet-try_finally (quiet_throw e) = quiet_throw e
  Quiet-try_finally (quiet_await c k q) = quiet_await c _ (λ reply. Quiet-try_finally (q reply))
  Quiet-try_finally (quiet_query k q) = quiet_query _ (λ d i. Quiet-try_finally (q d i))
  Quiet-try_finally (quiet_update g p keeps q) = quiet_update g _ keeps (Quiet-try_finally q)

  -- A quiet step inside a bind: both ways to end go on from the same view.
  pub Wp-step :
      {A B : Type 0} {p : Proc A} (f : A → Proc B) (Q : Py B → R → Type 0) (r : R)
      → Quiet p
      → ((e : Exn) → Q (raised e) r)
      → ((a : A) → Wp (f a) Q r)
      → Wp (p >>= f) Q r
  unfolding After
  Wp-step {A} {B} {p} f Q r q fail go = Wp-bind p f Q r (Quiet-Wp (After f Q) r q both)
    where
      both : (o : Py A) → After f Q o r
      both (ok a) = go a
      both (raised e) = fail e

  pub Wp-ret : {A : Type 0} (a : A) (Q : Py A → R → Type 0) (r : R) → Q (ok a) r → Wp (ret a) Q r
  unfolding Wp
  Wp-ret a Q r h = h

  pub Wp-if :
      {A : Type 0} (test : Bool) (p q : Proc A) (Q : Py A → R → Type 0) (r : R)
      → Wp p Q r
      → Wp q Q r
      → Wp (if test then p else q) Q r
  Wp-if true p q Q r h k = h
  Wp-if false p q Q r h k = k

  pub Quiet-if :
      {A : Type 0} (test : Bool) {p q : Proc A} → Quiet p → Quiet q → Quiet (if test then p else q)
  Quiet-if true h k = h
  Quiet-if false h k = k
