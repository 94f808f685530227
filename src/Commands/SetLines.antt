-- ===== src/Commands/SetLines.antt =====
-- Every line that is generated for JunOS is a `set` command.
use netdeploy.Base.{List, ◌∷◌, inl, inr, Bool-cases, String}
use netdeploy.Text.{Text, codes}
use netdeploy.Value.{Value, str, value_eq}
use netdeploy.Py.{Py, ◌>>=◌, Ensures, Ensures-ok, Ensures-get}
use netdeploy.Commands.Lines.{each_of}
use netdeploy.Commands.Junos
use netdeploy.Commands.Junos.{bgp_commands_junos, ospf_commands_junos}
use netdeploy.Commands.Stanzas.{
  Lines, here, more, Lines-append, Lines-when, each_of-Lines, each_of-bind,
}

-- A line that begins with "set ", by its code points.
pub data IsSetLine : Text → Type 0 where
  set_line : (t : Text) → IsSetLine (115 ∷ 101 ∷ 116 ∷ 32 ∷ t)

each_of-set {ℓ} :
    {Q : List Text → Type ℓ} (f : Value → Py (List Text)) (v : Value) (key : String)
    (g : List Text → Py (List Text))
    → ((x : Value) → Ensures (Lines IsSetLine) (f x))
    → ((ls : List Text) → Lines IsSetLine ls → Ensures Q (g ls))
    → Ensures Q (each_of f v key >>= g)
each_of-set = each_of-bind

ruleset set_rules = (
  Ensures-get, Ensures-ok, here, more, Lines-append, Lines-when, each_of-set, each_of-Lines,
  set_line,
)

neighbor : (asn n : Value) → Ensures (Lines IsSetLine) (Junos.bgp_neighbor asn n)
unfolding Junos.bgp_neighbor
neighbor asn n = search set_rules depth 20

pub bgp : (v : Value) → Ensures (Lines IsSetLine) (bgp_commands_junos v)
unfolding bgp_commands_junos Junos.bgp_network
bgp v = search (set_rules, neighbor) depth 20

interface :
    (area_id : Text) (i : Value) → Ensures (Lines IsSetLine) (Junos.ospf_interface area_id i)
unfolding Junos.ospf_interface
interface area_id i = search set_rules depth 20

area_lines : (area_id : Text) (kind : Value) → Lines IsSetLine (Junos.area_lines area_id kind)
unfolding Junos.area_lines
area_lines area_id kind = elim (Bool-cases (value_eq kind (str (codes "stub")))) [
  | inl h ↦ rw h (search set_rules)
  | inr h ↦ rw h (search set_rules)
]

area : (a : Value) → Ensures (Lines IsSetLine) (Junos.ospf_area a)
unfolding Junos.ospf_area
area a = search (set_rules, area_lines, interface) depth 20

pub ospf : (v : Value) → Ensures (Lines IsSetLine) (ospf_commands_junos v)
unfolding ospf_commands_junos
ospf v = search (set_rules, area) depth 20
