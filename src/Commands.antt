-- ===== src/Commands.antt =====
-- core/command_builder.py: the entry points of `CommandBuilder`. A device type is a string, and
-- the table of supported ones gives its vendor.
pub mod Lines
pub mod Xr
pub mod Ios
pub mod Junos
pub mod Arista
pub mod Stanzas
pub mod SetLines
pub mod Rollback
use netdeploy.Base.{
  String, Bool, List, [], ◌∷◌, ◌++◌, map, Option, none, some, ◌||◌, str_eq, keep, if◌then◌else◌,
}
use netdeploy.Text.{Text, codes, starts_with, replace_first}
use netdeploy.Value.{Value, Fields, lookup, repr_text}
use netdeploy.Py.{Py, ok, raised, value_error, ◌>>=◌}
use Xr.{bgp_commands_cisco_xr, ospf_commands_cisco_xr}
use Ios.{bgp_commands_cisco_ios, ospf_commands_cisco_ios}
use Junos.{bgp_commands_junos, ospf_commands_junos}
use Arista.{
  bgp_commands_arista_eos, ospf_commands_arista_eos, bgp_commands_nokia_sros,
  ospf_commands_nokia_sros,
}

pub data Vendor : Type 0 where
  cisco_xr cisco_ios junos arista_eos nokia_sros : Vendor

-- `SUPPORTED_DEVICE_TYPES`, with the vendor of each name
unfoldable pub vendor : String → Option Vendor
vendor t =
    if str_eq t "cisco_xr"
    then some cisco_xr
    else if str_eq t "cisco_ios"
    then some cisco_ios
    else if str_eq t "junos"
    then some junos
    else if str_eq t "arista_eos"
    then some arista_eos
    else if str_eq t "nokia_sros"
    then some nokia_sros
    else none

-- the dispatch tables of `_bgp_commands` and `_ospf_commands`
unfoldable pub bgp_commands : Vendor → Value → Py (List Text)
bgp_commands cisco_xr = bgp_commands_cisco_xr
bgp_commands cisco_ios = bgp_commands_cisco_ios
bgp_commands junos = bgp_commands_junos
bgp_commands arista_eos = bgp_commands_arista_eos
bgp_commands nokia_sros = bgp_commands_nokia_sros

unfoldable pub ospf_commands : Vendor → Value → Py (List Text)
ospf_commands cisco_xr = ospf_commands_cisco_xr
ospf_commands cisco_ios = ospf_commands_cisco_ios
ospf_commands junos = ospf_commands_junos
ospf_commands arista_eos = ospf_commands_arista_eos
ospf_commands nokia_sros = ospf_commands_nokia_sros

-- `if key in config: commands.extend(…)`
unfoldable pub section : (Value → Py (List Text)) → Option Value → Py (List Text)
section f none = ok []
section f (some v) = f v

unsupported : String → Text
unsupported t =
    codes "Unsupported device type: "
    ++ (repr_text (codes t)
        ++ codes ". Supported: ['arista_eos', 'cisco_ios', 'cisco_xr', 'junos', 'nokia_sros']")

unfoldable pub build_for : Fields → String → Option Vendor → Py (List Text)
unfolding section unsupported
build_for config t none = raised (value_error (unsupported t))
build_for config t (some v) = do
  bgp ← section (bgp_commands v) (lookup "bgp" config)
  ospf ← section (ospf_commands v) (lookup "ospf" config)
  ok (bgp ++ ospf)

-- `CommandBuilder.build`
unfoldable pub build : Fields → String → Py (List Text)
unfolding build_for
build config t = build_for config t (vendor t)

-- what opens a top-level stanza, which `build_rollback` negates
unfoldable pub is_stanza : Text → Bool
unfolding starts_with
is_stanza cmd = starts_with (codes "router bgp") cmd || starts_with (codes "router ospf") cmd

unfoldable pub negate_stanzas : List Text → List Text
negate_stanzas cmds = map (λ cmd. codes "no " ++ cmd) (keep is_stanza cmds)

unfoldable pub delete_sets : List Text → List Text
delete_sets cmds =
    map (replace_first (codes "set ") (codes "delete ")) (keep (starts_with (codes "set ")) cmds)

unfoldable pub rollback_for : String → Option Vendor → List Text → List Text
rollback_for t (some cisco_xr) cmds = negate_stanzas cmds
rollback_for t (some cisco_ios) cmds = negate_stanzas cmds
rollback_for t (some arista_eos) cmds = negate_stanzas cmds
rollback_for t (some junos) cmds = delete_sets cmds
rollback_for t _ cmds = (codes "# Rollback not implemented for " ++ codes t) ∷ []

-- `CommandBuilder.build_rollback`
unfoldable pub build_rollback : Fields → String → Py (List Text)
unfolding rollback_for
build_rollback config t = do cmds ← build config t; ok (rollback_for t (vendor t) cmds)
