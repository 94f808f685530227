-- ===== src/Commands/Stanzas.antt =====
-- Which generated lines open a top-level stanza: the first of a Cisco or Arista section, and no
-- other.
use netdeploy.Base.{◌≡◌, Bool, true, false, String, List, [], ◌∷◌, ◌++◌, pos, inl, inr, Bool-cases}
use netdeploy.Text.{Text, codes, rstrip, rstrip_head}
use netdeploy.Value.{Value, int, str, py_str, value_eq}
use netdeploy.Py.{Py, ◌>>=◌, Ensures, Ensures-ok, Ensures-bind, Ensures-any, Ensures-get, field_or}
use netdeploy.Commands.{is_stanza}
use netdeploy.Commands.Lines.{when, each, each_of, empty_text}
use netdeploy.Commands.Xr
use netdeploy.Commands.Ios
use netdeploy.Commands.Ios.{bgp_commands_cisco_ios, ospf_commands_cisco_ios}
use netdeploy.Commands.Arista
use netdeploy.Commands.Arista.{bgp_commands_arista_eos, ospf_commands_arista_eos}
use netdeploy.Commands.Xr.{bgp_commands_cisco_xr, ospf_commands_cisco_xr}

-- Every line satisfies `P`.
pub data Lines (P : Text → Type 0) : List Text → Type 0 where
  here : Lines P []
  more : {l : Text} {ls : List Text} → P l → Lines P ls → Lines P (l ∷ ls)

module _ {P : Text → Type 0} where
  pub Lines-append : (xs ys : List Text) → Lines P xs → Lines P ys → Lines P (xs ++ ys)
  Lines-append _ ys here hy = hy
  Lines-append _ ys (more {ls = xs} h hx) hy = more h (Lines-append xs ys hx hy)

  pub Lines-when : (b : Bool) (l : Text) → P l → Lines P (when b l)
  unfolding when
  Lines-when true l h = more h here
  Lines-when false l h = here

  each-Lines :
      (f : Value → Py (List Text)) (xs : List Value)
      → ((x : Value) → Ensures (Lines P) (f x))
      → Ensures (Lines P) (each f xs)
  unfolding each
  each-Lines f [] h = Ensures-ok [] here
  each-Lines f (x ∷ xs) h = Ensures-bind (f x) _ (h x) λ a ha.
      Ensures-bind (each f xs) _ (each-Lines f xs h)
        λ b hb. Ensures-ok (a ++ b) (Lines-append a b ha hb)

  pub each_of-Lines :
      (f : Value → Py (List Text)) (v : Value) (key : String)
      → ((x : Value) → Ensures (Lines P) (f x))
      → Ensures (Lines P) (each_of f v key)
  unfolding each_of
  each_of-Lines f v key h = Ensures-any _ _ λ xs. Ensures-any _ _ λ l. each-Lines f l h

  pub each_of-bind {ℓ} :
      {Q : List Text → Type ℓ} (f : Value → Py (List Text)) (v : Value) (key : String)
      (g : List Text → Py (List Text))
      → ((x : Value) → Ensures (Lines P) (f x))
      → ((ls : List Text) → Lines P ls → Ensures Q (g ls))
      → Ensures Q (each_of f v key >>= g)
  each_of-bind f v key g h k = Ensures-bind _ _ (each_of-Lines f v key h) k

abbrev pub IsPlain : Text → Type 0
IsPlain l = is_stanza l ≡ false

pub each_of-plain {ℓ} :
    {Q : List Text → Type ℓ} (f : Value → Py (List Text)) (v : Value) (key : String)
    (g : List Text → Py (List Text))
    → ((x : Value) → Ensures (Lines IsPlain) (f x))
    → ((ls : List Text) → Lines IsPlain ls → Ensures Q (g ls))
    → Ensures Q (each_of f v key >>= g)
each_of-plain = each_of-bind

ruleset line_rules =
    (Ensures-get, Ensures-ok, here, more, Lines-append, Lines-when, each_of-plain, each_of-Lines)

-- One line that opens a stanza, and plain lines after it.
pub data Stanza (head : Text) : List Text → Type 0 where
  stanza : {ls : List Text} → Lines IsPlain ls → Stanza head (head ∷ ls)

abbrev pub bgp_head : Value → Text
bgp_head bgp = codes "router bgp " ++ py_str (field_or bgp "local_asn" empty_text)

abbrev pub ospf_head : Value → Text
ospf_head ospf = codes "router ospf " ++ py_str (field_or ospf "process_id" (int (pos 1)))

xr_neighbor : (n : Value) → Ensures (Lines IsPlain) (Xr.bgp_neighbor n)
unfolding Xr.bgp_neighbor is_stanza
xr_neighbor n = search line_rules depth 20

pub xr_bgp : (bgp : Value) → Ensures (Stanza (bgp_head bgp)) (bgp_commands_cisco_xr bgp)
unfolding bgp_commands_cisco_xr is_stanza
xr_bgp bgp = search (line_rules, stanza, xr_neighbor) depth 20

xr_interface : (i : Value) → Ensures (Lines IsPlain) (Xr.ospf_interface i)
unfolding Xr.ospf_interface is_stanza
xr_interface i = search line_rules depth 20

xr_area : (a : Value) → Ensures (Lines IsPlain) (Xr.ospf_area a)
unfolding Xr.ospf_area is_stanza
xr_area a = search (line_rules, xr_interface) depth 20

pub xr_ospf : (ospf : Value) → Ensures (Stanza (ospf_head ospf)) (ospf_commands_cisco_xr ospf)
unfolding ospf_commands_cisco_xr is_stanza
xr_ospf ospf = search (line_rules, stanza, xr_area) depth 20

ios_neighbor : (n : Value) → Ensures (Lines IsPlain) (Ios.bgp_neighbor n)
unfolding Ios.bgp_neighbor is_stanza
ios_neighbor n = search line_rules depth 20

ios_activate : (n : Value) → Ensures (Lines IsPlain) (Ios.activate n)
unfolding Ios.activate is_stanza
ios_activate n = search line_rules depth 20

ios_network : (n : Value) → Ensures (Lines IsPlain) (Ios.bgp_network n)
unfolding Ios.bgp_network is_stanza
ios_network n = search (Ensures-any, line_rules) depth 20

pub ios_bgp : (bgp : Value) → Ensures (Stanza (bgp_head bgp)) (bgp_commands_cisco_ios bgp)
unfolding bgp_commands_cisco_ios is_stanza
ios_bgp bgp = search (line_rules, stanza, ios_neighbor, ios_activate, ios_network) depth 20

rstrip-IsPlain : (t : Text) → IsPlain (rstrip (32 ∷ t))
unfolding is_stanza
rstrip-IsPlain t = elim (rstrip_head 32 t) [ inl e ↦ rw e | inr (u, e) ↦ rw e ]

ios_area_lines :
    (area_id area_type : Value) (no_summary : Bool)
    → Lines IsPlain (Ios.area_lines area_id area_type no_summary)
unfolding Ios.area_lines is_stanza
ios_area_lines area_id area_type no_summary =
    elim (Bool-cases (value_eq area_type (str (codes "stub")))) [
      | inl h ↦ rw h (more (rstrip-IsPlain _) here)
      | inr h ↦ rw h (search line_rules)
    ]

ios_ospf_network : (area_id net : Value) → Ensures (Lines IsPlain) (Ios.ospf_network area_id net)
unfolding Ios.ospf_network is_stanza
ios_ospf_network area_id net = search (Ensures-any, line_rules) depth 20

ios_area : (a : Value) → Ensures (Lines IsPlain) (Ios.ospf_area a)
unfolding Ios.ospf_area
ios_area a = search (line_rules, ios_area_lines, ios_ospf_network) depth 20

pub ios_ospf : (ospf : Value) → Ensures (Stanza (ospf_head ospf)) (ospf_commands_cisco_ios ospf)
unfolding ospf_commands_cisco_ios is_stanza
ios_ospf ospf = search (line_rules, stanza, ios_area) depth 20

eos_neighbor : (n : Value) → Ensures (Lines IsPlain) (Arista.bgp_neighbor n)
unfolding Arista.bgp_neighbor is_stanza
eos_neighbor n = search line_rules depth 20

eos_activate : (n : Value) → Ensures (Lines IsPlain) (Arista.activate n)
unfolding Arista.activate is_stanza
eos_activate n = search line_rules depth 20

pub eos_bgp : (bgp : Value) → Ensures (Stanza (bgp_head bgp)) (bgp_commands_arista_eos bgp)
unfolding bgp_commands_arista_eos is_stanza
eos_bgp bgp = search (line_rules, stanza, eos_neighbor, eos_activate) depth 20

eos_area : (a : Value) → Ensures (Lines IsPlain) (Arista.ospf_area a)
unfolding Arista.ospf_area Arista.ospf_network is_stanza
eos_area a = search line_rules depth 20

pub eos_ospf : (ospf : Value) → Ensures (Stanza (ospf_head ospf)) (ospf_commands_arista_eos ospf)
unfolding ospf_commands_arista_eos is_stanza
eos_ospf ospf = search (line_rules, stanza, eos_area) depth 20
