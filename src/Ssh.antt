-- ===== src/Ssh.antt =====
-- core/ssh_handler.py: `SSHDevice`. The connection is either open or None; Netmiko itself is the
-- environment that answers the awaited calls.
use netdeploy.Base.{
  String, Bool, true, false, not, ◌||◌, List, [], ◌∷◌, ◌++◌, Option, none, some, any, ℕ, str_eq,
  if◌then◌else◌,
}
use netdeploy.Text.{Text, codes, contains_text, lower, decimal}
use netdeploy.Py.{Py, Exn, ok, raised, runtime_error}
use netdeploy.Proc.{Target, open_session, show, configure, Proc, ret, throw, await, ◌>>=◌, lift}

pub record SshDevice : Type 0 where
  pub target : Target
  pub is_open : Bool

-- `connect`: any exception of `ConnectHandler` is caught
unfoldable pub connected : SshDevice → Py Text → Proc (Bool × SshDevice)
connected ssh (ok _) = ret (true, record ssh { is_open = true })
connected ssh (raised _) = ret (false, record ssh { is_open = false })

unfoldable pub connect : SshDevice → Proc (Bool × SshDevice)
unfolding connected
connect ssh = await (open_session ssh.target) (connected ssh)

abbrev not_connected : SshDevice → Exn
not_connected ssh = runtime_error (codes "Not connected to " ++ ssh.target.hostname)

-- `send_command`: an exception of Netmiko goes on to the caller
unfoldable pub send_command : SshDevice → Text → Proc Text
send_command ssh cmd =
    if ssh.is_open then await (show ssh.target cmd) lift else throw (not_connected ssh)

error_indicators : List Text
error_indicators =
    codes "% "
    ∷ codes "Error"
    ∷ codes "Invalid"
    ∷ codes "Incomplete"
    ∷ codes "abort"
    ∷ codes "failed"
    ∷ []

-- whether the output of a config set names no error
unfoldable pub is_clean : Text → Bool
unfolding error_indicators
is_clean output = not (any (λ e. contains_text e output) error_indicators)

unfoldable pub applied : Py Text → Proc Bool
applied (ok output) = ret (is_clean output)
applied (raised _) = ret false

-- `send_config_set`: an exception of Netmiko is caught, a missing connection is not
unfoldable pub send_config_set : SshDevice → List Text → Proc Bool
unfolding applied
send_config_set ssh cmds =
    if ssh.is_open then await (configure ssh.target cmds) applied else throw (not_connected ssh)

unfoldable pub running_config_command : String → Text
running_config_command t =
    if str_eq t "junos"
    then codes "show configuration"
    else if str_eq t "nokia_sros"
    then codes "admin display-config"
    else codes "show running-config"

unfoldable pub get_running_config : SshDevice → Proc Text
unfolding running_config_command
get_running_config ssh = send_command ssh (running_config_command ssh.target.device_type)

-- `disconnect` drops the connection object; nothing is sent.
unfoldable pub disconnect : SshDevice → Proc SshDevice
disconnect ssh = ret (record ssh { is_open = false })

-- the table of `get_bgp_summary`, which `verify_bgp_neighbors` repeats
unfoldable pub bgp_show_command : String → Text
bgp_show_command t =
    if str_eq t "cisco_xr"
    then codes "show bgp neighbors summary"
    else if str_eq t "cisco_ios"
    then codes "show ip bgp summary"
    else if str_eq t "junos"
    then codes "show bgp neighbor"
    else if str_eq t "arista_eos"
    then codes "show bgp neighbors"
    else codes "show bgp summary"

unfoldable pub get_bgp_summary : SshDevice → Proc Text
unfolding bgp_show_command
get_bgp_summary ssh = send_command ssh (bgp_show_command ssh.target.device_type)

-- the table of `get_ospf_neighbors`, which `verify_ospf_adjacencies` repeats
unfoldable pub ospf_show_command : String → Text
ospf_show_command t =
    if str_eq t "cisco_ios" || str_eq t "arista_eos"
    then codes "show ip ospf neighbor"
    else codes "show ospf neighbor"

unfoldable pub get_ospf_neighbors : SshDevice → Proc Text
unfolding ospf_show_command
get_ospf_neighbors ssh = send_command ssh (ospf_show_command ssh.target.device_type)

is_known : String → Bool
is_known t =
    str_eq t "cisco_xr" || str_eq t "cisco_ios" || str_eq t "junos" || str_eq t "arista_eos"

all_interfaces : String → Text
all_interfaces t =
    if str_eq t "cisco_xr"
    then codes "show interfaces brief"
    else if str_eq t "cisco_ios"
    then codes "show ip interface brief"
    else if str_eq t "junos"
    then codes "show interfaces terse"
    else if str_eq t "arista_eos"
    then codes "show interfaces status"
    else codes "show interfaces"

interface_command : String → Option Text → Text
interface_command t none = all_interfaces t
interface_command t (some []) = all_interfaces t
interface_command t (some (c ∷ name)) =
    if is_known t then codes "show interfaces " ++ (c ∷ name) else codes "show interfaces"

unfoldable pub get_interface_status : SshDevice → Option Text → Proc Text
unfolding interface_command is_known all_interfaces
get_interface_status ssh interface =
    send_command ssh (interface_command ssh.target.device_type interface)

-- `if source: cmd += …`
source_option : Option Text → Text
source_option none = []
source_option (some []) = []
source_option (some (c ∷ source)) = codes " source " ++ (c ∷ source)

ping_command : String → Text → ℕ → Option Text → Text
ping_command t target count source =
    if str_eq t "junos"
    then codes "ping " ++ (target ++ (codes " count " ++ (decimal count ++ codes " rapid")))
    else codes "ping "
      ++ (target
          ++ (codes " repeat "
              ++ (decimal count
                  ++ (if str_eq t "cisco_xr" || str_eq t "cisco_ios"
                      then source_option source
                      else []))))

unfoldable pub ping : SshDevice → Text → ℕ → Option Text → Proc Text
unfolding ping_command source_option
ping ssh target count source =
    send_command ssh (ping_command ssh.target.device_type target count source)

-- `save_config`: only these vendors need a command
unfoldable pub save_config : SshDevice → Proc Bool
save_config ssh =
    if str_eq ssh.target.device_type "cisco_ios" || str_eq ssh.target.device_type "arista_eos"
    then (do
      output ← send_command ssh (codes "write memory")
      ret (not (contains_text (codes "error") (lower output))))
    else ret true
