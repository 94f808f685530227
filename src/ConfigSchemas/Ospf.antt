-- ===== src/ConfigSchemas/Ospf.antt =====
-- api/config_schemas.py: the schemas of OSPF.
use netdeploy.Base.{Bool, List, ◌++◌, Option, ℤ}
use netdeploy.Text.{Text}
use netdeploy.ConfigSchemas.Fields.{
  Problem, bounded, bounded_option, at_least, all_problems, validate_router_id, validate_networks,
}

pub data Authentication : Type 0 where
  simple : Authentication
  md5 : Authentication
  unauthenticated : Authentication

pub data NetworkType : Type 0 where
  point_to_point : NetworkType
  broadcast : NetworkType
  non_broadcast : NetworkType
  point_to_multipoint : NetworkType

pub data AreaType : Type 0 where
  normal : AreaType
  stub : AreaType
  nssa : AreaType

pub record OspfInterface : Type 0 where
  pub name : Text
  pub cost : Option ℤ
  pub priority : ℤ
  pub hello_interval : ℤ
  pub dead_interval : ℤ
  pub passive : Bool
  pub network_type : Option NetworkType
  pub authentication : Option Authentication
  pub authentication_key : Option Text

unfoldable pub interface_problems : OspfInterface → List Problem
unfolding bounded bounded_option
interface_problems i =
    bounded_option "cost" 1 65535 i.cost
    ++ (bounded "priority" 0 255 i.priority
        ++ (bounded "hello_interval" 1 65535 i.hello_interval
            ++ bounded "dead_interval" 1 65535 i.dead_interval))

pub record OspfArea : Type 0 where
  pub area_id : Text
  pub area_type : AreaType
  pub networks : List Text
  pub interfaces : List OspfInterface
  pub authentication : Option Authentication
  pub no_summary : Bool
  pub default_cost : Option ℤ

unfoldable pub area_problems : OspfArea → List Problem
unfolding all_problems bounded_option
area_problems a =
    all_problems validate_networks a.networks
    ++ (all_problems interface_problems a.interfaces
        ++ bounded_option "default_cost" 0 16777215 a.default_cost)

pub record OspfConfig : Type 0 where
  pub process_id : ℤ
  pub router_id : Option Text
  pub areas : List OspfArea
  pub log_adjacency_changes : Bool
  pub auto_cost_reference_bandwidth : Option ℤ
  pub redistribute : List Text

unfoldable pub ospf_problems : OspfConfig → List Problem
unfolding bounded validate_router_id all_problems at_least
ospf_problems c =
    bounded "process_id" 1 65535 c.process_id
    ++ (validate_router_id c.router_id
        ++ (all_problems area_problems c.areas
            ++ at_least "auto_cost_reference_bandwidth" 1 c.auto_cost_reference_bandwidth))
