-- ===== src/Verifier.antt =====
-- core/state_verifier.py: `VerificationResult` and `StateVerifier`.
mod Parse
pub mod Verdict
unfoldable pub use Parse.{
  says_established, parse_bgp_neighbor_state, says_full, enough, parse_ping_success,
}
use netdeploy.Base.{
  ℕ, String, Bool, true, false, List, [], ◌∷◌, ◌++◌, Option, none, some, str_eq, if◌then◌else◌,
}
use netdeploy.Text.{Text, codes, split_on, decimal, take_text}
use netdeploy.Value.{Value, arr, nil, str, Fields, lookup, py_str}
use netdeploy.Py
use netdeploy.Py.{Py, ok, raised, exn_text, get, iterate, need_text}
use netdeploy.Proc.{Proc, ret, ◌>>=◌, attempt, lift}
use netdeploy.Ssh.{SshDevice, send_command, bgp_show_command, ospf_show_command}

pub record Check : Type 0 where
  pub name : Text
  pub passed : Bool
  pub detail : Text

pub record VerificationResult : Type 0 where
  pub passed : Bool
  pub checks : List Check

abbrev pub no_checks : VerificationResult
no_checks = record { passed = true; checks = [] }

unfoldable pub add_check : Check → VerificationResult → VerificationResult
add_check c r = record {
  passed = if c.passed then r.passed else false;
  checks = r.checks ++ (c ∷ []);
}

-- the loop of `verify_all` that copies the checks of one verification
unfoldable pub add_checks : List Check → VerificationResult → VerificationResult
unfolding add_check
add_checks [] r = r
add_checks (c ∷ cs) r = add_checks cs (add_check c r)

-- the check of a show command that raised
abbrev show_failed : String → Py.Exn → Check
show_failed name e = record {
  name = codes name;
  passed = false;
  detail = codes "SSH error: " ++ exn_text e;
}

unfoldable pub neighbor_check : Text → Text → String → Text → Check
neighbor_check output ip device_type cmd =
    let established = parse_bgp_neighbor_state output ip device_type in
    record {
      name = codes "bgp_neighbor_" ++ ip;
      passed = established;
      detail =
          codes "State: "
          ++ ((if established then codes "Established" else codes "NOT Established")
              ++ (codes " (from: " ++ (cmd ++ codes ")")));
    }

-- the loop over the expected neighbors
unfoldable pub check_neighbors :
    Text → String → Text → List Value → VerificationResult → Py VerificationResult
unfolding neighbor_check
check_neighbors output device_type cmd [] r = ok r
check_neighbors output device_type cmd (n ∷ ns) r = Py.◌>>=◌ (get n "neighbor_ip" (str [])) λ v.
    Py.◌>>=◌ (need_text v) λ ip.
      check_neighbors output device_type cmd ns
        (add_check (neighbor_check output ip device_type cmd) r)

unfoldable pub bgp_checks : Value → String → Text → Py Text → Py VerificationResult
unfolding check_neighbors
bgp_checks bgp_config device_type cmd (raised e) =
    ok (add_check (show_failed "bgp_show_command" e) no_checks)
bgp_checks bgp_config device_type cmd (ok output) =
    Py.◌>>=◌ (get bgp_config "neighbors" (arr nil))
      λ v. Py.◌>>=◌ (iterate v) λ ns. check_neighbors output device_type cmd ns no_checks

unfoldable pub verify_bgp_neighbors : SshDevice → Value → String → Proc VerificationResult
unfolding bgp_checks
verify_bgp_neighbors ssh bgp_config device_type = do
  let cmd = bgp_show_command device_type
  output ← attempt (send_command ssh cmd)
  lift (bgp_checks bgp_config device_type cmd output)

ospf_checks : Text → Py Text → VerificationResult
ospf_checks cmd (raised e) = add_check (show_failed "ospf_show_command" e) no_checks
ospf_checks cmd (ok output) =
    let full = says_full output in
    add_check
      (record {
        name = codes "ospf_adjacencies_full";
        passed = full;
        detail =
            codes "Output contains FULL state: "
            ++ ((if full then codes "True" else codes "False")
                ++ (codes " (from: " ++ (cmd ++ codes ")")));
      })
      no_checks

unfoldable pub verify_ospf_adjacencies : SshDevice → Value → String → Proc VerificationResult
unfolding ospf_checks
verify_ospf_adjacencies ssh ospf_config device_type = do
  let cmd = ospf_show_command device_type
  output ← attempt (send_command ssh cmd)
  ret (ospf_checks cmd output)

-- `if key in desired_config: …` in `verify_all`
unfoldable pub verify_section :
    (Value → Proc VerificationResult) → Option Value → VerificationResult → Proc VerificationResult
verify_section verify none r = ret r
verify_section verify (some v) r = do part ← verify v; ret (add_checks part.checks r)

unfoldable pub verify_all : SshDevice → Fields → String → Proc VerificationResult
unfolding verify_section
verify_all ssh desired_config device_type = do
  bgp ←
      verify_section (λ v. verify_bgp_neighbors ssh v device_type) (lookup "bgp" desired_config)
        no_checks
  verify_section (λ v. verify_ospf_adjacencies ssh v device_type) (lookup "ospf" desired_config) bgp

-- `prefix.split("/")[0]`
first_part : List Text → Text
first_part [] = []
first_part (p ∷ ps) = p

verifier_ping : String → Text → ℕ → Text
verifier_ping device_type host count =
    if str_eq device_type "junos"
    then codes "ping " ++ (host ++ (codes " count " ++ (decimal count ++ codes " rapid")))
    else codes "ping " ++ (host ++ (codes " repeat " ++ decimal count))

ping_check : Text → Py Text → Check
ping_check host (raised e) = record {
  name = codes "ping_" ++ host;
  passed = false;
  detail = codes "SSH error: " ++ exn_text e;
}
ping_check host (ok output) =
    let success = parse_ping_success output in
    record {
      name = codes "ping_" ++ host;
      passed = success;
      detail =
          codes "Ping "
          ++ (host
              ++ (codes ": "
                  ++ ((if success then codes "OK" else codes "FAILED")
                      ++ (codes " — " ++ take_text 80 output))));
    }

ping_prefixes : SshDevice → List Text → String → ℕ → VerificationResult → Proc VerificationResult
unfolding ping_check verifier_ping first_part
ping_prefixes ssh [] device_type count r = ret r
ping_prefixes ssh (p ∷ ps) device_type count r = do
  let host = first_part (split_on b'/' p)
  output ← attempt (send_command ssh (verifier_ping device_type host count))
  ping_prefixes ssh ps device_type count (add_check (ping_check host output) r)

unfoldable pub verify_reachability : SshDevice → List Text → String → ℕ → Proc VerificationResult
unfolding ping_prefixes
verify_reachability ssh prefixes device_type count =
    ping_prefixes ssh prefixes device_type count no_checks
