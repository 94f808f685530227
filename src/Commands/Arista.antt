-- ===== src/Commands/Arista.antt =====
-- core/command_builder.py: the commands of Arista EOS, and the two lines of Nokia SR-OS.
use netdeploy.Base.{true, List, [], ◌∷◌, ◌++◌, pos}
use netdeploy.Text.{Text, codes}
use netdeploy.Value.{Value, null, bool, int, str, truthy, py_str}
use netdeploy.Py.{Py, ok, ◌>>=◌, get}
use netdeploy.Commands.Lines.{when, empty_text, each_of}
use netdeploy.Commands.Xr.{network_line}

unfoldable pub bgp_neighbor : Value → Py (List Text)
bgp_neighbor neighbor = do
  ip ← get neighbor "neighbor_ip" empty_text
  remote_asn ← get neighbor "remote_asn" empty_text
  description ← get neighbor "description" null
  let start = codes "   neighbor " ++ py_str ip
  ok (
      (start ++ (codes " remote-as " ++ py_str remote_asn))
      ∷ when (truthy description) (start ++ (codes " description " ++ py_str description)))

unfoldable pub activate : Value → Py (List Text)
activate neighbor = do
  ip ← get neighbor "neighbor_ip" empty_text
  ok ((codes "      neighbor " ++ (py_str ip ++ codes " activate")) ∷ [])

unfoldable pub bgp_commands_arista_eos : Value → Py (List Text)
unfolding bgp_neighbor activate
bgp_commands_arista_eos bgp = do
  asn ← get bgp "local_asn" empty_text
  router_id ← get bgp "router_id" null
  neighbors ← each_of bgp_neighbor bgp "neighbors"
  activations ← each_of activate bgp "neighbors"
  networks ← each_of (network_line (codes "      network ")) bgp "networks"
  ok (
      (codes "router bgp " ++ py_str asn)
      ∷ (when (truthy router_id) (codes "   router-id " ++ py_str router_id)
          ++ (neighbors
              ++ (codes "   !" ∷ codes "   address-family ipv4" ∷ (activations ++ networks)))))

unfoldable pub ospf_network : Value → Value → Py (List Text)
ospf_network area_id net =
    ok ((codes "   network " ++ (py_str net ++ (codes " area " ++ py_str area_id))) ∷ [])

unfoldable pub ospf_area : Value → Py (List Text)
unfolding ospf_network
ospf_area area = do
  area_id ← get area "area_id" (str (codes "0"))
  each_of (ospf_network area_id) area "networks"

unfoldable pub ospf_commands_arista_eos : Value → Py (List Text)
unfolding ospf_area
ospf_commands_arista_eos ospf = do
  pid ← get ospf "process_id" (int (pos 1))
  router_id ← get ospf "router_id" null
  log_changes ← get ospf "log_adjacency_changes" (bool true)
  areas ← each_of ospf_area ospf "areas"
  ok (
      (codes "router ospf " ++ py_str pid)
      ∷ (when (truthy router_id) (codes "   router-id " ++ py_str router_id)
          ++ (when (truthy log_changes) (codes "   log-adjacency-changes detail") ++ areas)))

unfoldable pub bgp_commands_nokia_sros : Value → Py (List Text)
bgp_commands_nokia_sros bgp = ok (codes "# Nokia SR-OS BGP commands — CURSOR IMPLEMENTS" ∷ [])

unfoldable pub ospf_commands_nokia_sros : Value → Py (List Text)
ospf_commands_nokia_sros ospf = ok (codes "# Nokia SR-OS OSPF commands — CURSOR IMPLEMENTS" ∷ [])
