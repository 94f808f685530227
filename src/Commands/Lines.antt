-- ===== src/Commands/Lines.antt =====
-- What the command generators share: lines under a test, and a loop that collects lines.
use netdeploy.Base.{Bool, String, List, [], ◌∷◌, ◌++◌, Option, none, some, if◌then◌else◌}
use netdeploy.Text.{Text}
use netdeploy.Value.{Value, Fields, str, arr, nil, truthy, lookup}
use netdeploy.Ip.{Network, ipv4_network}
use netdeploy.Py.{Py, ok, raised, address_error, ◌>>=◌, get, iterate}
use netdeploy.Value

-- `if test: cmds.append(line)`
unfoldable pub when : Bool → Text → List Text
when test line = if test then line ∷ [] else []

abbrev pub empty_text : Value
empty_text = str []

abbrev pub empty_list : Value
empty_list = arr nil

-- `for x in xs: …` with the lines that each round appends
unfoldable pub each : (Value → Py (List Text)) → List Value → Py (List Text)
each f [] = ok []
each f (x ∷ xs) = do a ← f x; b ← each f xs; ok (a ++ b)

-- `for x in v.get(key, []): …`
unfoldable pub each_of : (Value → Py (List Text)) → Value → String → Py (List Text)
unfolding each
each_of f v key = do xs ← get v key empty_list; l ← iterate xs; each f l

-- `IPv4Network(v, strict=False)`, which raises on a bad value
or_bad : Value → Option Network → Py Network
or_bad v none = raised (address_error (Value.py_str v))
or_bad v (some n) = ok n

unfoldable pub network_or_raise : Value → Py Network
unfolding or_bad
network_or_raise v = or_bad v (ipv4_network v)
