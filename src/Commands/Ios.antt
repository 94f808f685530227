-- ===== src/Commands/Ios.antt =====
-- core/command_builder.py: the commands of classic Cisco IOS.
use netdeploy.Base.{true, Bool, List, [], ◌∷◌, ◌++◌, pos, if◌then◌else◌}
use netdeploy.Text.{Text, codes, rstrip}
use netdeploy.Value.{Value, null, bool, int, str, truthy, py_str, value_eq}
use netdeploy.Ip.{host_mask, netmask, ip_text}
use netdeploy.Py.{Py, ok, ◌>>=◌, get}
use netdeploy.Commands.Lines.{when, empty_text, each_of, network_or_raise}

unfoldable pub bgp_neighbor : Value → Py (List Text)
bgp_neighbor neighbor = do
  ip ← get neighbor "neighbor_ip" empty_text
  remote_asn ← get neighbor "remote_asn" empty_text
  description ← get neighbor "description" null
  password ← get neighbor "password" null
  shutdown ← get neighbor "shutdown" null
  let start = codes " neighbor " ++ py_str ip
  ok (
      (start ++ (codes " remote-as " ++ py_str remote_asn))
      ∷ (when (truthy description) (start ++ (codes " description " ++ py_str description))
          ++ (when (truthy password) (start ++ (codes " password " ++ py_str password))
              ++ when (truthy shutdown) (start ++ codes " shutdown"))))

unfoldable pub activate : Value → Py (List Text)
activate neighbor = do
  ip ← get neighbor "neighbor_ip" empty_text
  ok ((codes "  neighbor " ++ (py_str ip ++ codes " activate")) ∷ [])

unfoldable pub bgp_network : Value → Py (List Text)
bgp_network net = do
  n ← network_or_raise net
  ok ((codes "  network " ++ (ip_text n.address ++ (codes " mask " ++ ip_text (netmask n)))) ∷ [])

unfoldable pub bgp_commands_cisco_ios : Value → Py (List Text)
unfolding bgp_neighbor activate bgp_network
bgp_commands_cisco_ios bgp = do
  asn ← get bgp "local_asn" empty_text
  router_id ← get bgp "router_id" null
  neighbors ← each_of bgp_neighbor bgp "neighbors"
  activations ← each_of activate bgp "neighbors"
  networks ← each_of bgp_network bgp "networks"
  ok (
      (codes "router bgp " ++ py_str asn)
      ∷ (when (truthy router_id) (codes " bgp router-id " ++ py_str router_id)
          ++ (codes " bgp log-neighbor-changes"
              ∷ (neighbors
                  ++ (codes " !"
                      ∷ codes " address-family ipv4"
                      ∷ (activations ++ (networks ++ (codes " exit-address-family" ∷ []))))))))

unfoldable pub area_lines : Value → Value → Bool → List Text
area_lines area_id area_type no_summary =
    if value_eq area_type (str (codes "stub"))
    then rstrip (
        codes " area "
        ++ (py_str area_id ++ (codes " stub " ++ (if no_summary then codes "no-summary" else []))))
      ∷ []
    else when (value_eq area_type (str (codes "nssa")))
        (codes " area " ++ (py_str area_id ++ codes " nssa"))

unfoldable pub ospf_network : Value → Value → Py (List Text)
ospf_network area_id net = do
  n ← network_or_raise net
  ok (
      (codes " network "
        ++ (ip_text n.address
            ++ (codes " " ++ (ip_text (host_mask n) ++ (codes " area " ++ py_str area_id)))))
      ∷ [])

unfoldable pub ospf_area : Value → Py (List Text)
unfolding area_lines ospf_network
ospf_area area = do
  area_id ← get area "area_id" (str (codes "0"))
  area_type ← get area "area_type" (str (codes "normal"))
  no_summary ← get area "no_summary" null
  networks ← each_of (ospf_network area_id) area "networks"
  ok (area_lines area_id area_type (truthy no_summary) ++ networks)

unfoldable pub ospf_commands_cisco_ios : Value → Py (List Text)
unfolding ospf_area
ospf_commands_cisco_ios ospf = do
  pid ← get ospf "process_id" (int (pos 1))
  router_id ← get ospf "router_id" null
  log_changes ← get ospf "log_adjacency_changes" (bool true)
  areas ← each_of ospf_area ospf "areas"
  ok (
      (codes "router ospf " ++ py_str pid)
      ∷ (when (truthy router_id) (codes " router-id " ++ py_str router_id)
          ++ (when (truthy log_changes) (codes " log-adjacency-changes") ++ areas)))
