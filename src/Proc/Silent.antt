-- ===== src/Proc/Silent.antt =====
-- What talks to a device writes nothing to the database: it is quiet for every view.
use netdeploy.Base.{Option, none, some, List, String, Bool-cases, inl, inr}
use netdeploy.Text.{Text}
use netdeploy.Value.{Value, Fields, lookup}
use netdeploy.Py.{Py, ok, raised}
use netdeploy.Db.{Db}
use netdeploy.Proc.{Proc}
use netdeploy.Proc.Logic.{
  Quiet, quiet_ret, quiet_throw, quiet_await, Quiet-bind, Quiet-attempt, Quiet-lift,
}
use netdeploy.Ssh.{
  SshDevice, connect, connected, send_command, send_config_set, applied, get_running_config,
}
use netdeploy.Verifier.{
  VerificationResult, verify_all, verify_section, verify_bgp_neighbors, verify_ospf_adjacencies,
}
use netdeploy.Snapshots.{capture_running_config}

module _ {R : Type 0} (Inv : Db → Type 0) (view : Db → R) where
  abbrev Silent : {A : Type 0} → Proc A → Type 0
  Silent = Quiet Inv view

  Silent-connected : (ssh : SshDevice) (r : Py Text) → Silent (connected ssh r)
  unfolding connected
  Silent-connected ssh (ok t) = quiet_ret _
  Silent-connected ssh (raised e) = quiet_ret _

  pub Silent-connect : (ssh : SshDevice) → Silent (connect ssh)
  unfolding connect
  Silent-connect ssh = quiet_await _ _ (Silent-connected ssh)

  pub Silent-send_command : (ssh : SshDevice) (cmd : Text) → Silent (send_command ssh cmd)
  unfolding send_command
  Silent-send_command ssh cmd = elim (Bool-cases ssh.is_open) [
    | inl h ↦ rw h (quiet_await _ _ (Quiet-lift Inv view))
    | inr h ↦ rw h (quiet_throw _)
  ]

  Silent-applied : (r : Py Text) → Silent (applied r)
  unfolding applied
  Silent-applied (ok t) = quiet_ret _
  Silent-applied (raised e) = quiet_ret _

  pub Silent-send_config_set :
      (ssh : SshDevice) (cmds : List Text) → Silent (send_config_set ssh cmds)
  unfolding send_config_set
  Silent-send_config_set ssh cmds = elim (Bool-cases ssh.is_open) [
    | inl h ↦ rw h (quiet_await _ _ Silent-applied)
    | inr h ↦ rw h (quiet_throw _)
  ]

  pub Silent-capture : (ssh : SshDevice) → Silent (capture_running_config ssh)
  unfolding capture_running_config get_running_config
  Silent-capture ssh =
      Quiet-bind Inv view _ (Quiet-attempt Inv view (Silent-send_command ssh _)) λ r. quiet_ret _

  Silent-bgp : (ssh : SshDevice) (v : Value) (t : String) → Silent (verify_bgp_neighbors ssh v t)
  unfolding verify_bgp_neighbors
  Silent-bgp ssh v t =
      Quiet-bind Inv view _ (Quiet-attempt Inv view (Silent-send_command ssh _))
        λ output. Quiet-lift Inv view _

  Silent-ospf :
      (ssh : SshDevice) (v : Value) (t : String) → Silent (verify_ospf_adjacencies ssh v t)
  unfolding verify_ospf_adjacencies
  Silent-ospf ssh v t =
      Quiet-bind Inv view _ (Quiet-attempt Inv view (Silent-send_command ssh _))
        λ output. quiet_ret _

  Silent-section :
      (f : Value → Proc VerificationResult) (o : Option Value) (r : VerificationResult)
      → ((v : Value) → Silent (f v))
      → Silent (verify_section f o r)
  unfolding verify_section
  Silent-section f none r h = quiet_ret r
  Silent-section f (some v) r h = Quiet-bind Inv view _ (h v) λ part. quiet_ret _

  pub Silent-verify_all :
      (ssh : SshDevice) (desired : Fields) (t : String) → Silent (verify_all ssh desired t)
  unfolding verify_all
  Silent-verify_all ssh desired t =
      Quiet-bind Inv view _ (Silent-section _ (lookup "bgp" desired) _ (λ v. Silent-bgp ssh v t))
        λ bgp. Silent-section _ (lookup "ospf" desired) bgp (λ v. Silent-ospf ssh v t)
