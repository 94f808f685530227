-- ===== src/Routes/Devices.antt =====
-- api/routes/devices.py, with the request that api/schemas.py validates. A column that the
-- request leaves unset is `none`.
pub mod Hostnames
use netdeploy.Base.{
  ℕ, zero, suc, ◌-◌, String, Bool, true, false, not, ◌&&◌, ◌||◌, List, [], ◌∷◌, ◌++◌, any, length,
  Option, none, some, ◌==◌, leb, str_eq, find?, if◌then◌else◌,
}
use netdeploy.Text.{Text, codes, text_eq}
use netdeploy.Value.{Fields, end, field, str}
use netdeploy.Ip.{ip_of_text}
use netdeploy.Db.{Db, Device, find_device, add_audit}
use netdeploy.Proc.{Proc, ret, ◌>>=◌, ◌>>◌, gets, modify}
use netdeploy.Snapshots.{Env, uuid4}
use netdeploy.Routes.{message, Reply, reply, refused, page}
use netdeploy.Routes.Deployments.{found_or_404}

pub record DeviceRequest : Type 0 where
  pub hostname : Text
  pub device_type : String
  pub management_ip : Text
  pub ssh_port : Option ℕ
  pub bgp_asn : Option (Option ℕ)
  pub ospf_area : Option (Option Text)
  pub os_version : Option (Option Text)

-- the value of a column that the request sets, or the other one
unfoldable pub set_or {ℓ} : {A : Type ℓ} → Option A → A → A
set_or none old = old
set_or (some a) old = a

abbrev device_types : List String
device_types = "cisco_xr" ∷ "cisco_ios" ∷ "junos" ∷ "arista_eos" ∷ "nokia_sros" ∷ []

is_some {ℓ} : {A : Type ℓ} → Option A → Bool
is_some none = false
is_some (some a) = true

valid_asn : Option ℕ → Bool
valid_asn none = true
valid_asn (some n) = leb 1 n && leb n 4294967295

-- What Pydantic checks of a request.
unfoldable pub is_valid_request : DeviceRequest → Bool
unfolding is_some valid_asn set_or
is_valid_request r =
    leb 1 (length r.hostname)
    && leb (length r.hostname) 255
    && any (str_eq r.device_type) device_types
    && is_some (ip_of_text r.management_ip)
    && leb 1 (set_or r.ssh_port 22)
    && leb (set_or r.ssh_port 22) 65535
    && valid_asn (set_or r.bgp_asn none)

-- `get_client_ip`, of `request.client.host`
unfoldable pub get_client_ip : Option Text → Text
get_client_ip none = codes "0.0.0.0"
get_client_ip (some host) = host

-- `Device(**request_body.dict())`
unfoldable pub device_of : DeviceRequest → ℕ → Device
unfolding set_or
device_of r id = record {
  id = id;
  hostname = r.hostname;
  device_type = r.device_type;
  management_ip = r.management_ip;
  ssh_port = set_or r.ssh_port 22;
  bgp_asn = set_or r.bgp_asn none;
  ospf_area = set_or r.ospf_area none;
  os_version = set_or r.os_version none;
}

unfoldable pub add_device : Device → Db → Db
add_device d db = record db { devices = db.devices ++ (d ∷ []) }

unfoldable pub find_hostname : Text → Db → Option Device
find_hostname hostname db = find? (λ d. text_eq d.hostname hostname) db.devices

module _ (env : Env) (user_id : Text) (client : Option Text) where
  unfoldable pub create_unless : DeviceRequest → Option Device → Proc (Reply Device)
  unfolding device_of
  create_unless r (some existing) =
      ret (refused 409 (message (codes "Device " ++ (r.hostname ++ codes " already exists"))))
  create_unless r none = do
    id ← uuid4 env
    modify (add_device (device_of r id))
    modify (
        add_audit (record {
          user_id = user_id;
          action = "CREATE";
          resource_type = "Device";
          resource_id = id;
          details = field "hostname" (str r.hostname) end;
          ip_address = some (get_client_ip client);
        }))
    ret (reply (device_of r id))

  unfoldable pub create_device : DeviceRequest → Proc (Reply Device)
  unfolding create_unless
  create_device r = do existing ← gets (find_hostname r.hostname); create_unless r existing

unfoldable pub list_devices : ℕ → ℕ → Proc (List Device)
list_devices skip limit = gets (λ db. page skip limit db.devices)

unfoldable pub get_device : ℕ → Proc (Reply Device)
get_device device_id =
    gets (λ db. found_or_404 (codes "Device not found") (find_device device_id db))

-- `setattr` of every field that the request sets
unfoldable pub updated : DeviceRequest → Device → Device
unfolding set_or
updated r d = record d {
  hostname = r.hostname;
  device_type = r.device_type;
  management_ip = r.management_ip;
  ssh_port = set_or r.ssh_port d.ssh_port;
  bgp_asn = set_or r.bgp_asn d.bgp_asn;
  ospf_area = set_or r.ospf_area d.ospf_area;
  os_version = set_or r.os_version d.os_version;
}

replace_device : ℕ → (Device → Device) → List Device → List Device
replace_device id f [] = []
replace_device id f (d ∷ ds) = if d.id == id then f d ∷ ds else d ∷ replace_device id f ds

unfoldable pub modify_device : ℕ → (Device → Device) → Db → Db
unfolding replace_device
modify_device id f db = record db { devices = replace_device id f db.devices }

unfoldable pub update_found_device : DeviceRequest → Option Device → Proc (Reply Device)
update_found_device r none = ret (refused 404 (message (codes "Device not found")))
update_found_device r (some d) = do
  modify (modify_device d.id (updated r))
  ret (reply (updated r d))

unfoldable pub update_device : ℕ → DeviceRequest → Proc (Reply Device)
unfolding update_found_device
update_device device_id r = do device ← gets (find_device device_id); update_found_device r device

remove_device : ℕ → List Device → List Device
remove_device id [] = []
remove_device id (d ∷ ds) = if d.id == id then ds else d ∷ remove_device id ds

-- `db.delete(device)`, for a device that no other row refers to
unfoldable pub delete_row : ℕ → Db → Db
unfolding remove_device
delete_row id db = record db { devices = remove_device id db.devices }

delete_found : Option Device → Proc (Reply (Unit {0}))
delete_found none = ret (refused 404 (message (codes "Device not found")))
delete_found (some d) = do modify (delete_row d.id); ret (reply tt)

unfoldable pub delete_device : ℕ → Proc (Reply (Unit {0}))
unfolding delete_found
delete_device device_id = do device ← gets (find_device device_id); delete_found device

-- A placeholder: the device, never reachable. The time of the check is left out.
health_reply : Option Device → Reply (ℕ × Text × Bool)
health_reply none = refused 404 (message (codes "Device not found"))
health_reply (some d) = reply (d.id, d.hostname, false)

unfoldable pub device_health : ℕ → Proc (Reply (ℕ × Text × Bool))
unfolding health_reply
device_health device_id = gets (λ db. health_reply (find_device device_id db))

-- A placeholder: `{"status": "sync_queued", "device_id": …}`; nothing is fetched or stored.
sync_reply : Option Device → Reply (Text × ℕ)
sync_reply none = refused 404 (message (codes "Device not found"))
sync_reply (some d) = reply (codes "sync_queued", d.id)

unfoldable pub sync_device : ℕ → Proc (Reply (Text × ℕ))
unfolding sync_reply
sync_device device_id = gets (λ db. sync_reply (find_device device_id db))
