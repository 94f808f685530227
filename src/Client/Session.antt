-- ===== src/Client/Session.antt =====
-- dashboard/utils/api_client.py: the calls that the client makes through `requests`, which is a
-- parameter: a function from a call to a response or an exception.
use netdeploy.Base.{ℕ, Bool, true, false, ◌&&◌, [], ◌∷◌, Option, none, some, ◌==◌, if◌then◌else◌}
use netdeploy.Text.{Text}
use netdeploy.Value.{Value, Fields}
use netdeploy.Py.{Py, ok, raised, Exn, ◌>>=◌, ◌>>◌}

pub data Verb : Type 0 where
  get : Verb
  post : Verb
  put : Verb
  delete : Verb

-- A call: its URL is the base followed by the path. Fields without a value are empty or `null`.
pub record Call : Type 0 where
  pub verb : Verb
  pub base : Text
  pub path : Text
  pub params : Fields
  pub json : Value
  pub timeout : ℕ

-- What the client reads of a response; `error` is what `raise_for_status` raises.
pub record Response : Type 0 where
  pub status_code : ℕ
  pub error : Option Exn
  pub json : Py Value
  pub text : Text

abbrev pub Http : Type 0
Http = Call → Py Response

is_empty : Text → Bool
is_empty [] = true
is_empty (c ∷ t) = false

-- `t.rstrip(sep)` for one character
unfoldable pub rstrip_char : ℕ → Text → Text
unfolding is_empty
rstrip_char sep [] = []
rstrip_char sep (c ∷ t) =
    let rest = rstrip_char sep t in if is_empty rest && c == sep then [] else c ∷ rest

pub record Client : Type 0 where
  pub api_url : Text
  pub timeout : ℕ

-- `NetDeployClient(api_url, timeout)`
unfoldable pub new_client : Text → ℕ → Client
unfolding rstrip_char
new_client api_url timeout = record { api_url = rstrip_char b'/' api_url; timeout = timeout }

unfoldable pub raise_for_status : Response → Py (Unit {0})
raise_for_status r = elim r.error [ none ↦ ok tt | some e ↦ raised e ]

-- `try: … except Exception as e: …`
unfoldable pub try_except {ℓ} : {A : Type ℓ} → Py A → (Exn → Py A) → Py A
try_except (ok a) handler = ok a
try_except (raised e) handler = handler e

-- The body that most methods share: the JSON of the response, or a value for every exception.
unfoldable pub answer : Value → Py Response → Py Value
unfolding raise_for_status try_except ◌>>=◌
answer failed response =
    try_except (response >>= λ r. raise_for_status r >> r.json) (λ e. ok failed)
