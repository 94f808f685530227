-- ===== src/Proc/Stays.antt =====
-- Coroutines that keep a property of their view, whether they end with a value or raise.
use netdeploy.Base.{Bool, true, false, if◌then◌else◌}
use netdeploy.Py.{Py, ok, raised}
use netdeploy.Db.{Db}
use netdeploy.Proc.{Proc, ret, throw, await, query, update, ◌>>=◌}
use netdeploy.Proc.Logic.{Wp, Quiet, After, Wp-bind, Wp-ret, Quiet-Wp}

module _ {R : Type 0} (Inv : Db → Type 0) (view : Db → R) where
  -- A weaker postcondition.
  pub Wp-weaken :
      {A : Type 0} (p : Proc A) (Q Q' : Py A → R → Type 0) (r : R)
      → ((o : Py A) (r' : R) → Q o r' → Q' o r')
      → Wp Inv view p Q r
      → Wp Inv view p Q' r
  unfolding Wp
  Wp-weaken (ret a) Q Q' r f h = f _ _ h
  Wp-weaken (throw e) Q Q' r f h = f _ _ h
  Wp-weaken (await c k) Q Q' r f h = λ reply. Wp-weaken (k reply) Q Q' r f (h reply)
  Wp-weaken (query k) Q Q' r f h = λ d i e. Wp-weaken (k d) Q Q' r f (h d i e)
  Wp-weaken (update g p) Q Q' r f h =
      λ d i e. ((h d i e).0, Wp-weaken p Q Q' (view (g d)) f (h d i e).1)

  module _ (S : R → Type 0) where
    unfoldable pub Stays : {A : Type 0} → Proc A → Type 0
    Stays p = (r : R) → S r → Wp Inv view p (λ o r'. S r') r

    pub Stays-Quiet : {A : Type 0} {p : Proc A} → Quiet Inv view p → Stays p
    unfolding Stays
    Stays-Quiet q r s = Quiet-Wp Inv view _ r q (λ o. s)

    pub Stays-ret : {A : Type 0} (a : A) → Stays (ret a)
    unfolding Stays
    Stays-ret a r s = Wp-ret Inv view a _ r s

    pub Stays-bind :
        {A B : Type 0} (p : Proc A) (f : A → Proc B)
        → Stays p
        → ((a : A) → Stays (f a))
        → Stays (p >>= f)
    unfolding Stays After
    Stays-bind {A} {B} p f h k r s = Wp-bind Inv view p f _ r (Wp-weaken p _ _ r next (h r s))
      where
        next : (o : Py A) (r' : R) → S r' → After Inv view f (λ o'. S) o r'
        next (ok a) r' s' = k a r' s'
        next (raised e) r' s' = s'

    pub Stays-if :
        {A : Type 0} (test : Bool) (p q : Proc A)
        → Stays p
        → Stays q
        → Stays (if test then p else q)
    Stays-if true p q h k = h
    Stays-if false p q h k = k
