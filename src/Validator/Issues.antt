-- ===== src/Validator/Issues.antt =====
-- core/validator.py: the errors and warnings, one constructor for each of the source's f-strings.
use netdeploy.Base.{◌++◌}
use netdeploy.Text.{Text, codes}
use netdeploy.Value.{Value, repr, repr_text, py_str}

pub data Issue : Type 0 where
  not_an_object : Issue
  loopback_prefix link_local_prefix bad_prefix : Value → Issue
  bad_asn : Value → Issue
  loopback_neighbor reserved_neighbor zero_neighbor bad_neighbor : Value → Issue
  zero_router_id : Issue
  loopback_router_id bad_router_id : Value → Issue
  -- the hold time, then the keepalive
  short_hold_time : Value → Value → Issue
  internal_peering : Value → Issue
  area_shape : Text → Issue
  area_octet : Text → Text → Issue
  area_range bad_area : Text → Issue
  -- the dead interval, then the hello interval
  short_dead_interval : Value → Value → Issue
  duplicate_neighbor duplicate_area : Value → Issue
  -- the prefix, the action seen and the new action
  policy_conflict : Value → Value → Value → Issue
  router_ids_differ : Value → Value → Issue
  md5_support : Issue

unfoldable pub issue_text : Issue → Text
issue_text not_an_object = codes "Config must be a JSON object"
issue_text (loopback_prefix v) =
    codes "Prefix " ++ (py_str v ++ codes " is a loopback range — unlikely to be correct")
issue_text (link_local_prefix v) =
    codes "Prefix " ++ (py_str v ++ codes " is link-local (169.254.x.x) — unusual route")
issue_text (bad_prefix v) = codes "Prefix " ++ (repr v ++ codes " is not valid CIDR notation")
issue_text (bad_asn v) = codes "Invalid ASN " ++ (py_str v ++ codes ": must be 1-4294967295")
issue_text (loopback_neighbor v) =
    codes "BGP neighbor " ++ (py_str v ++ codes " is a loopback address")
issue_text (reserved_neighbor v) =
    codes "BGP neighbor " ++ (py_str v ++ codes " is a reserved address")
issue_text (zero_neighbor v) = codes "BGP neighbor " ++ (py_str v ++ codes " is 0.0.0.0 — invalid")
issue_text (bad_neighbor v) =
    codes "BGP neighbor " ++ (repr v ++ codes " is not a valid IPv4 address")
issue_text zero_router_id = codes "BGP router-id 0.0.0.0 is invalid"
issue_text (loopback_router_id v) =
    codes "BGP router-id "
    ++ (py_str v
        ++ codes " is in loopback range (127.x.x.x) — use a /32 loopback interface address instead")
issue_text (bad_router_id v) =
    codes "BGP router-id " ++ (repr v ++ codes " is not a valid IPv4 address")
issue_text (short_hold_time hold keepalive) =
    codes "BGP hold_time ("
    ++ (py_str hold
        ++ (codes "s) < 3 × keepalive (" ++ (py_str keepalive ++ codes "s) — violates RFC 4271")))
issue_text (internal_peering v) =
    codes "Local ASN " ++ (py_str v ++ codes " == Remote ASN: this is iBGP (internal peering)")
issue_text (area_shape a) =
    codes "OSPF area " ++ (repr_text a ++ codes " must be dotted-decimal (a.b.c.d)")
issue_text (area_octet a part) =
    codes "OSPF area " ++ (repr_text a ++ (codes " has octet out of range: " ++ part))
issue_text (area_range a) =
    codes "OSPF area " ++ (repr_text a ++ codes " is out of range 0-4294967295")
issue_text (bad_area a) =
    codes "OSPF area " ++ (repr_text a ++ codes " cannot be parsed as area ID")
issue_text (short_dead_interval dead hello) =
    codes "OSPF dead interval ("
    ++ (py_str dead
        ++ (codes "s) is less than 4× hello ("
            ++ (py_str hello ++ codes "s) — adjacencies may flap")))
issue_text (duplicate_neighbor v) = codes "Duplicate BGP neighbor IP: " ++ py_str v
issue_text (duplicate_area v) = codes "Duplicate OSPF area: " ++ py_str v
issue_text (policy_conflict prefix old action) =
    codes "Policy conflict on prefix "
    ++ (py_str prefix
        ++ (codes ": both '"
            ++ (py_str old ++ (codes "' and '" ++ (py_str action ++ codes "' actions defined")))))
issue_text (router_ids_differ bgp ospf) =
    codes "BGP router-id ("
    ++ (py_str bgp
        ++ (codes ") differs from OSPF router-id ("
            ++ (py_str ospf ++ codes ") — typically these should match for consistency")))
issue_text md5_support =
    codes "Arista EOS: MD5 OSPF authentication requires EOS 4.22+; verify OS version"
