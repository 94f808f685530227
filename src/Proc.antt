-- ===== src/Proc.antt =====
-- Coroutines. A coroutine reads and writes the session at once, and is suspended where it awaits
-- a call of Netmiko in the thread pool; it ends with a value or an exception.
pub mod Logic
pub mod Silent
pub mod Offline
pub mod Run
pub mod Stays
pub mod Total
use netdeploy.Base.{ℕ, suc, ◌+◌, Bool, true, false, List, [], ◌∷◌, ◌++◌, Option, none, some, String}
use netdeploy.Text.{Text}
use netdeploy.Py.{Py, ok, raised, Exn}
use netdeploy.Py
use netdeploy.Db.{Db}

-- The arguments of `ConnectHandler`.
pub record Target : Type 0 where
  pub hostname : Text
  pub ip : Text
  pub device_type : String
  pub port : ℕ

pub data Call : Type 0 where
  open_session : Target → Call
  show : Target → Text → Call
  configure : Target → List Text → Call

-- Every call that was made, with its outcome: the output, or the exception.
abbrev pub Wire : Type 0
Wire = List (Call × Py Text)

pub record State : Type 0 where
  pub db : Db
  pub wire : Wire

pub data Proc (A : Type 0) : Type 0 where
  ret : A → Proc A
  throw : Exn → Proc A
  await : Call → (Py Text → Proc A) → Proc A
  query : (Db → Proc A) → Proc A
  update : (Db → Db) → Proc A → Proc A

infixl 5 ◌>>=◌ ◌>>◌
unfoldable pub ◌>>=◌ : {A B : Type 0} → Proc A → (A → Proc B) → Proc B
ret a >>= f = f a
throw e >>= f = throw e
await c k >>= f = await c (λ r. k r >>= f)
query k >>= f = query (λ d. k d >>= f)
update g p >>= f = update g (p >>= f)

abbrev pub ◌>>◌ : {A B : Type 0} → Proc A → Proc B → Proc B
p >> q = p >>= λ _. q

-- `try: p except Exception as e: h(e)`
unfoldable pub try_except : {A : Type 0} → Proc A → (Exn → Proc A) → Proc A
try_except (ret a) h = ret a
try_except (throw e) h = h e
try_except (await c k) h = await c (λ r. try_except (k r) h)
try_except (query k) h = query (λ d. try_except (k d) h)
try_except (update g p) h = update g (try_except p h)

-- `try: p finally: q`
unfoldable pub try_finally : {A : Type 0} → Proc A → Proc (Unit {0}) → Proc A
unfolding ◌>>=◌
try_finally (ret a) q = q >>= λ _. ret a
try_finally (throw e) q = q >>= λ _. throw e
try_finally (await c k) q = await c (λ r. try_finally (k r) q)
try_finally (query k) q = query (λ d. try_finally (k d) q)
try_finally (update g p) q = update g (try_finally p q)

-- `try: p except Exception as e`, with the exception as a value
unfoldable pub attempt : {A : Type 0} → Proc A → Proc (Py A)
attempt (ret a) = ret (ok a)
attempt (throw e) = ret (raised e)
attempt (await c k) = await c (λ r. attempt (k r))
attempt (query k) = query (λ d. attempt (k d))
attempt (update g p) = update g (attempt p)

-- A plain expression that may raise.
abbrev pub lift : {A : Type 0} → Py A → Proc A
lift (ok a) = ret a
lift (raised e) = throw e

abbrev pub gets : {A : Type 0} → (Db → A) → Proc A
gets f = query (λ d. ret (f d))

abbrev pub modify : (Db → Db) → Proc (Unit {0})
modify f = update f (ret tt)

-- what Netmiko answers, given all that was sent before
abbrev pub Net : Type 0
Net = Wire → Call → Py Text

abbrev pub sent : Call → Py Text → State → State
sent c r s = record s { wire = s.wire ++ ((c, r) ∷ []) }

-- `await p` with no other task running
unfoldable pub run : {A : Type 0} → Net → Proc A → State → Py A × State
run net (ret a) s = (ok a, s)
run net (throw e) s = (raised e, s)
run net (await c k) s = let r = net s.wire c in run net (k r) (sent c r s)
run net (query k) s = run net (k s.db) s
run net (update f p) s = run net p (record s { db = f s.db })
