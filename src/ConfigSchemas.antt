-- ===== src/ConfigSchemas.antt =====
-- api/config_schemas.py: the typed schemas of a desired state, as Pydantic checks them.
-- Keys that no schema names are accepted as they are and left out here.
use netdeploy.Base.{List, [], ◌++◌, Option, none, some}
use netdeploy.ConfigSchemas.Fields.{Problem}
use netdeploy.ConfigSchemas.Bgp.{BgpConfig, bgp_problems}
use netdeploy.ConfigSchemas.Ospf.{OspfConfig, ospf_problems}
pub mod Fields
pub mod Bgp
pub mod Ospf
pub mod Sound
pub mod Normal

pub record DeviceDesiredState : Type 0 where
  pub bgp : Option BgpConfig
  pub ospf : Option OspfConfig

unfoldable section_problems {ℓ} : {A : Type ℓ} → (A → List Problem) → Option A → List Problem
section_problems f none = []
section_problems f (some c) = f c

unfoldable pub desired_problems : DeviceDesiredState → List Problem
unfolding section_problems
desired_problems d = section_problems bgp_problems d.bgp ++ section_problems ospf_problems d.ospf
