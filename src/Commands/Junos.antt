-- ===== src/Commands/Junos.antt =====
-- core/command_builder.py: the set-format commands of Juniper JunOS.
use netdeploy.Base.{Bool, List, [], ◌∷◌, ◌++◌, pos, if◌then◌else◌}
use netdeploy.Text.{Text, codes, contains_text}
use netdeploy.Value.{Value, null, int, str, truthy, py_str, value_eq}
use netdeploy.Py.{Py, ok, ◌>>=◌, get}
use netdeploy.Commands.Lines.{when, empty_text, each_of}

-- the peer group of a neighbor, and the type of that group
abbrev group : Bool → Text
group internal = if internal then codes "IBGP" else codes "EBGP"

abbrev peer_type : Bool → Text
peer_type internal = if internal then codes "internal" else codes "external"

unfoldable pub bgp_neighbor : Value → Value → Py (List Text)
bgp_neighbor asn neighbor = do
  ip ← get neighbor "neighbor_ip" empty_text
  remote_asn ← get neighbor "remote_asn" empty_text
  description ← get neighbor "description" null
  let internal = value_eq remote_asn asn
  let peer = codes " neighbor " ++ py_str ip
  ok (
      (codes "set protocols bgp group "
        ++ (group internal ++ (codes " type " ++ peer_type internal)))
      ∷ (codes "set protocols bgp group "
          ++ (group internal ++ (peer ++ (codes " peer-as " ++ py_str remote_asn))))
      ∷ when (truthy description) (
          codes "set protocols bgp group "
          ++ (group internal
              ++ (peer ++ (codes " description \"" ++ (py_str description ++ codes "\""))))))

unfoldable pub bgp_network : Value → Py (List Text)
bgp_network net = ok (
    (codes "set policy-options policy-statement EXPORT term BGP from route-filter "
      ++ (py_str net ++ codes " exact"))
    ∷ codes "set policy-options policy-statement EXPORT term BGP then accept"
    ∷ [])

unfoldable pub bgp_commands_junos : Value → Py (List Text)
unfolding bgp_neighbor bgp_network
bgp_commands_junos bgp = do
  asn ← get bgp "local_asn" empty_text
  router_id ← get bgp "router_id" null
  neighbors ← each_of (bgp_neighbor asn) bgp "neighbors"
  networks ← each_of bgp_network bgp "networks"
  ok (
      (codes "set routing-options autonomous-system " ++ py_str asn)
      ∷ (when (truthy router_id) (codes "set routing-options router-id " ++ py_str router_id)
          ++ (neighbors ++ networks)))

-- An area ID with no dot is taken for the last octet.
unfoldable pub dotted_area : Text → Text
dotted_area area_id =
    if contains_text (codes ".") area_id then area_id else codes "0.0.0." ++ area_id

unfoldable pub ospf_interface : Text → Value → Py (List Text)
ospf_interface area_id iface = do
  name ← get iface "name" empty_text
  hello ← get iface "hello_interval" (int (pos 10))
  dead ← get iface "dead_interval" (int (pos 40))
  passive ← get iface "passive" null
  let place = area_id ++ (codes " interface " ++ py_str name)
  ok (
      (codes "set protocols ospf area " ++ place)
      ∷ (codes "set protocols ospf area " ++ (place ++ (codes " hello-interval " ++ py_str hello)))
      ∷ (codes "set protocols ospf area " ++ (place ++ (codes " dead-interval " ++ py_str dead)))
      ∷ when (truthy passive) (codes "set protocols ospf area " ++ (place ++ codes " passive")))

unfoldable pub area_lines : Text → Value → List Text
area_lines area_id area_type =
    if value_eq area_type (str (codes "stub"))
    then (codes "set protocols ospf area " ++ (area_id ++ codes " stub")) ∷ []
    else when (value_eq area_type (str (codes "nssa")))
        (codes "set protocols ospf area " ++ (area_id ++ codes " nssa"))

unfoldable pub ospf_area : Value → Py (List Text)
unfolding area_lines ospf_interface
ospf_area area = do
  given ← get area "area_id" (str (codes "0.0.0.0"))
  area_type ← get area "area_type" (str (codes "normal"))
  let area_id = dotted_area (py_str given)
  interfaces ← each_of (ospf_interface area_id) area "interfaces"
  ok (area_lines area_id area_type ++ interfaces)

unfoldable pub ospf_commands_junos : Value → Py (List Text)
unfolding ospf_area
ospf_commands_junos ospf = each_of ospf_area ospf "areas"
