-- ===== src/Commands/Rollback.antt =====
-- What `build_rollback` negates: each top-level stanza of Cisco and Arista, each line of JunOS.
use netdeploy.Base.{
  ◌≡◌, refl, ap, Bool, true, false, String, List, [], ◌∷◌, ◌++◌, map, Option, none, some, keep,
  arith,
}
use mathlib.Core.List.{map-append}
use netdeploy.Text.{Text, codes, starts_with, replace_first}
use netdeploy.Value.{Value, Fields, lookup}
use netdeploy.Py.{Py, ok, ◌>>=◌, Ensures, Ensures-ok, Ensures-bind}
use netdeploy.Commands.{
  Vendor, cisco_xr, cisco_ios, junos, arista_eos, nokia_sros, vendor, bgp_commands, ospf_commands,
  section, build_for, build, is_stanza, negate_stanzas, delete_sets, rollback_for, build_rollback,
}
use netdeploy.Commands.Stanzas.{
  Lines, here, more, Lines-append, IsPlain, Stanza, stanza, bgp_head, ospf_head, xr_bgp, xr_ospf,
  ios_bgp, ios_ospf, eos_bgp, eos_ospf,
}
use netdeploy.Commands.SetLines
use netdeploy.Commands.SetLines.{IsSetLine, set_line}

keep-Lines : {ls : List Text} → Lines IsPlain ls → keep is_stanza ls ≡ []
keep-Lines here = refl
keep-Lines (more h hs) = rw h (keep-Lines hs)

keep-append : (p : Text → Bool) (xs ys : List Text) → keep p (xs ++ ys) ≡ keep p xs ++ keep p ys
keep-append p [] ys = refl
keep-append p (x ∷ xs) ys = ground (arith, keep-append p xs ys)

pub negate_stanzas-append :
    (xs ys : List Text) → negate_stanzas (xs ++ ys) ≡ negate_stanzas xs ++ negate_stanzas ys
unfolding negate_stanzas
negate_stanzas-append xs ys = simp (keep-append, map-append)

negate_stanzas-Stanza :
    {head : Text} {ls : List Text}
    → is_stanza head ≡ true
    → Stanza head ls
    → negate_stanzas ls ≡ (codes "no " ++ head) ∷ []
unfolding negate_stanzas
negate_stanzas-Stanza h (stanza plain) = rw h (rw (keep-Lines plain))

-- The negated first line of a section that the config has.
abbrev pub negated : (Value → Text) → Option Value → List Text
negated head none = []
negated head (some v) = (codes "no " ++ head v) ∷ []

-- The vendors whose stanzas are negated.
abbrev pub negates : Vendor → Bool
negates junos = false
negates nokia_sros = false
negates _ = true

section-negated :
    (f : Value → Py (List Text)) (head : Value → Text)
    → ((v : Value) → is_stanza (head v) ≡ true)
    → ((v : Value) → Ensures (Stanza (head v)) (f v))
    → (o : Option Value) → Ensures (λ ls. negate_stanzas ls ≡ negated head o) (section f o)
unfolding section
section-negated f head first h none = Ensures-ok [] (unfold negate_stanzas in refl)
section-negated f head first h (some v) = record {
  at = λ ls e. negate_stanzas-Stanza (first v) ((h v).at ls e);
}

bgp-Stanza :
    (v : Vendor)
    → negates v ≡ true
    → (bgp : Value) → Ensures (Stanza (bgp_head bgp)) (bgp_commands v bgp)
unfolding bgp_commands
bgp-Stanza cisco_xr h = xr_bgp
bgp-Stanza cisco_ios h = ios_bgp
bgp-Stanza arista_eos h = eos_bgp
bgp-Stanza junos h = cc
bgp-Stanza nokia_sros h = cc

ospf-Stanza :
    (v : Vendor)
    → negates v ≡ true
    → (ospf : Value) → Ensures (Stanza (ospf_head ospf)) (ospf_commands v ospf)
unfolding ospf_commands
ospf-Stanza cisco_xr h = xr_ospf
ospf-Stanza cisco_ios h = ios_ospf
ospf-Stanza arista_eos h = eos_ospf
ospf-Stanza junos h = cc
ospf-Stanza nokia_sros h = cc

rollback_for-negates :
    (t : String) (v : Vendor) (cmds : List Text)
    → negates v ≡ true
    → rollback_for t (some v) cmds ≡ negate_stanzas cmds
unfolding rollback_for
rollback_for-negates t cisco_xr cmds h = refl
rollback_for-negates t cisco_ios cmds h = refl
rollback_for-negates t arista_eos cmds h = refl
rollback_for-negates t junos cmds h = cc
rollback_for-negates t nokia_sros cmds h = cc

build-negated :
    (config : Fields) (t : String) (v : Vendor)
    → vendor t ≡ some v
    → negates v ≡ true
    → Ensures
        (λ cmds.
          negate_stanzas cmds
          ≡ negated bgp_head (lookup "bgp" config) ++ negated ospf_head (lookup "ospf" config))
        (build config t)
unfolding build build_for
build-negated config t v e h = rw e (
    Ensures-bind _ _
      (section-negated (bgp_commands v) bgp_head first_bgp (bgp-Stanza v h) (lookup "bgp" config))
      λ b hb.
        Ensures-bind _ _
          (section-negated (ospf_commands v) ospf_head first_ospf (ospf-Stanza v h)
            (lookup "ospf" config))
          λ o ho. Ensures-ok (b ++ o) (rw (negate_stanzas-append, hb, ho)))
  where
    first_bgp : (x : Value) → is_stanza (bgp_head x) ≡ true
    first_bgp x = unfold is_stanza in refl

    first_ospf : (x : Value) → is_stanza (ospf_head x) ≡ true
    first_ospf x = unfold is_stanza in refl

-- For a Cisco or Arista device, if the commands of a configuration can be generated, then their
-- rollback is exactly one line for each section that the configuration has: `no router bgp` with
-- the local ASN, then `no router ospf` with the process ID.
pub build_rollback-stanzas :
    (config : Fields) (t : String) (v : Vendor) {cmds : List Text}
    → vendor t ≡ some v
    → negates v ≡ true
    → build config t ≡ ok cmds
    → build_rollback config t
      ≡ ok (negated bgp_head (lookup "bgp" config) ++ negated ospf_head (lookup "ospf" config))
unfolding build_rollback ◌>>=◌
build_rollback-stanzas config t v e h b =
    rw (b, e, rollback_for-negates t v _ h, (build-negated config t v e h).at _ b)

delete_sets-Lines :
    {ls : List Text}
    → Lines IsSetLine ls
    → (rests : List Text) × (ls ≡ map (λ r. codes "set " ++ r) rests)
      × (delete_sets ls ≡ map (λ r. codes "delete " ++ r) rests)
unfolding delete_sets replace_first starts_with
delete_sets-Lines here = ([], refl, refl)
delete_sets-Lines (more (set_line r) hs) =
    let (rests, e, d) = delete_sets-Lines hs in
    (r ∷ rests, ap (λ ls. (codes "set " ++ r) ∷ ls) e, ap (λ ls. (codes "delete " ++ r) ∷ ls) d)

section-Lines :
    (f : Value → Py (List Text))
    → ((v : Value) → Ensures (Lines IsSetLine) (f v))
    → (o : Option Value) → Ensures (Lines IsSetLine) (section f o)
unfolding section
section-Lines f h none = Ensures-ok [] here
section-Lines f h (some v) = h v

junos_lines : (config : Fields) → Ensures (Lines IsSetLine) (build config "junos")
unfolding build build_for vendor bgp_commands ospf_commands
junos_lines config = Ensures-bind _ _ (section-Lines _ SetLines.bgp (lookup "bgp" config)) λ b hb.
    Ensures-bind _ _ (section-Lines _ SetLines.ospf (lookup "ospf" config))
      λ o ho. Ensures-ok (b ++ o) (Lines-append b o hb ho)

-- Every command that is generated for a JunOS device is a `set` command, and its rollback is the
-- same list, in the same order, with `delete` in place of the first `set` of each command.
pub build_rollback-junos :
    (config : Fields) {cmds : List Text}
    → build config "junos" ≡ ok cmds
    → (rests : List Text) × (cmds ≡ map (λ r. codes "set " ++ r) rests)
      × (build_rollback config "junos" ≡ ok (map (λ r. codes "delete " ++ r) rests))
unfolding build_rollback ◌>>=◌ vendor rollback_for
build_rollback-junos config b =
    let (rests, e, d) = delete_sets-Lines ((junos_lines config).at _ b) in (rests, e, rw b (rw d))
