-- ===== src/Commands/Xr.antt =====
-- core/command_builder.py: the commands of Cisco IOS-XR.
use netdeploy.Base.{List, [], ◌∷◌, ◌++◌, pos}
use netdeploy.Text.{Text, codes}
use netdeploy.Value.{Value, null, int, str, truthy, py_str}
use netdeploy.Py.{Py, ok, ◌>>=◌, get}
use netdeploy.Commands.Lines.{when, empty_text, each_of}

abbrev pub network_line : Text → Value → Py (List Text)
network_line start net = ok ((start ++ py_str net) ∷ [])

unfoldable pub bgp_neighbor : Value → Py (List Text)
bgp_neighbor neighbor = do
  ip ← get neighbor "neighbor_ip" empty_text
  remote_asn ← get neighbor "remote_asn" empty_text
  description ← get neighbor "description" null
  shutdown ← get neighbor "shutdown" null
  next_hop_self ← get neighbor "next_hop_self" null
  soft ← get neighbor "soft_reconfiguration" null
  ok (
      (codes " neighbor " ++ py_str ip)
      ∷ (codes "  remote-as " ++ py_str remote_asn)
      ∷ (when (truthy description) (codes "  description " ++ py_str description)
          ++ (when (truthy shutdown) (codes "  shutdown")
              ++ (codes "  address-family ipv4 unicast"
                  ∷ (when (truthy next_hop_self) (codes "   next-hop-self")
                      ++ (when (truthy soft) (codes "   soft-reconfiguration inbound")
                          ++ (codes "  !" ∷ codes " !" ∷ [])))))))

unfoldable pub bgp_commands_cisco_xr : Value → Py (List Text)
unfolding bgp_neighbor
bgp_commands_cisco_xr bgp = do
  asn ← get bgp "local_asn" empty_text
  router_id ← get bgp "router_id" null
  networks ← each_of (network_line (codes "  network ")) bgp "networks"
  neighbors ← each_of bgp_neighbor bgp "neighbors"
  ok (
      (codes "router bgp " ++ py_str asn)
      ∷ (when (truthy router_id) (codes " bgp router-id " ++ py_str router_id)
          ++ (codes " address-family ipv4 unicast"
              ∷ (networks ++ (codes " !" ∷ (neighbors ++ (codes "!" ∷ [])))))))

unfoldable pub ospf_interface : Value → Py (List Text)
ospf_interface iface = do
  name ← get iface "name" empty_text
  cost ← get iface "cost" null
  hello ← get iface "hello_interval" (int (pos 10))
  dead ← get iface "dead_interval" (int (pos 40))
  passive ← get iface "passive" null
  ok (
      (codes "  interface " ++ py_str name)
      ∷ (when (truthy cost) (codes "   cost " ++ py_str cost)
          ++ ((codes "   hello-interval " ++ py_str hello)
              ∷ (codes "   dead-interval " ++ py_str dead)
              ∷ (when (truthy passive) (codes "   passive enable") ++ (codes "  !" ∷ [])))))

unfoldable pub ospf_area : Value → Py (List Text)
unfolding ospf_interface
ospf_area area = do
  area_id ← get area "area_id" (str (codes "0"))
  networks ← each_of (network_line (codes "  network ")) area "networks"
  interfaces ← each_of ospf_interface area "interfaces"
  ok ((codes " area " ++ py_str area_id) ∷ (networks ++ (interfaces ++ (codes " !" ∷ []))))

unfoldable pub ospf_commands_cisco_xr : Value → Py (List Text)
unfolding ospf_area
ospf_commands_cisco_xr ospf = do
  pid ← get ospf "process_id" (int (pos 1))
  router_id ← get ospf "router_id" null
  areas ← each_of ospf_area ospf "areas"
  ok (
      (codes "router ospf " ++ py_str pid)
      ∷ (when (truthy router_id) (codes " router-id " ++ py_str router_id)
          ++ (areas ++ (codes "!" ∷ []))))
