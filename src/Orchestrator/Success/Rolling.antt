-- ===== src/Orchestrator/Success/Rolling.antt =====
-- core/orchestrator.py: a rolling deployment that reports success.
use netdeploy.Base.{
  ℕ, String, ◌≡◌, refl, sym, ap, ◌∙◌, Bool, true, false, ◌||◌, not, List, [], ◌∷◌, ◌++◌, All, any,
  arith, some, ◌==◌, Bool-cases, inl, inr, if◌then◌else◌,
}
use mathlib.Core.Path.{subst}
use netdeploy.Text.{Text}
use netdeploy.Py.{Py, ok, raised}
use netdeploy.Db.Rows.{Key, keys, Distinct}
use netdeploy.Proc.{State, Proc, ret, ◌>>=◌, Net, run}
use netdeploy.Proc.Run.{and_then, run-bind}
use netdeploy.Snapshots.{Env}
use netdeploy.Orchestrator.{
  BatchResult, rolling_failed, succeeded, broken, status_of, roll, after_deploy, after_health,
  has_failed,
}
use netdeploy.Orchestrator.Device.{DeviceResult, deploy_to_device, health_check}
use netdeploy.Orchestrator.Parallel.{HasRow}
use netdeploy.Orchestrator.Health.{run-health_check}
use netdeploy.Orchestrator.Success.{Succeeded}
use netdeploy.Orchestrator.Success.Step.{Stepped, deploy_to_device-Stepped}

pub broken-ne-succeeded : broken ≡ succeeded → ⊥
broken-ne-succeeded e = cc

-- A run that ends with a result that is not a success does not end with one.
not_succeeded :
    (net : Net) (x r : BatchResult) (s s' : State)
    → run net (ret x) s ≡ (ok r, s')
    → status_of x ≡ broken
    → status_of r ≡ succeeded
    → ⊥
unfolding run
not_succeeded net x r s s' e bad good =
    let same : x ≡ r = cc in broken-ne-succeeded (sym bad ∙ (ap status_of same ∙ good))

module _ (env : Env) (net : Net) (b : ℕ) (version : String) (user : Text) where
  -- The loop goes on only after a success.
  after_deploy-succeeded :
      (done : List ℕ) (id : ℕ) (next : Proc BatchResult) (d : DeviceResult) (s s' : State)
      (r : BatchResult)
      → run net (after_deploy env net version b user id done next d) s ≡ (ok r, s')
      → status_of r ≡ succeeded
      → (has_failed (ok d) ≡ false) × (run net next s ≡ (ok r, s'))
  unfolding after_deploy after_health has_failed status_of and_then
  after_deploy-succeeded done id next d s s' r e good = judge d.success e
    where
      healthy_next :
          (h : Bool)
          → and_then net (after_health env net version b user id (done ++ (id ∷ [])) next) (ok h, s)
            ≡ (ok r, s')
          → run net next s ≡ (ok r, s')
      healthy_next true e' = e'
      healthy_next false e' = elim (not_succeeded net _ r s s' e' refl good) [ ]

      judge :
          (t : Bool)
          → run net
              (if t
                then health_check id
                  >>= after_health env net version b user id (done ++ (id ∷ [])) next
                else ret (rolling_failed b done id d.error))
              s
            ≡ (ok r, s')
          → (not t ≡ false) × (run net next s ≡ (ok r, s'))
      judge true e' =
          let f = after_health env net version b user id (done ++ (id ∷ [])) next in
          let (h, healthy) = run-health_check net id s in
          (
            refl,
            healthy_next h (
                sym (ap (and_then net f) healthy)
                ∙ (sym (run-bind net (health_check id) f s) ∙ e')),
          )
      judge false e' = elim (not_succeeded net _ r s s' e' refl good) [ ]

  module _ (ks : List Key) (distinct : Distinct ks) (dev : ℕ) where
    after_step :
        (done : List ℕ) (id : ℕ) (next : Proc BatchResult) (seen : Bool) (s s' : State)
        (r : BatchResult) (out : Py DeviceResult × State)
        → Stepped b ks dev id s out
        → (seen ≡ true → Succeeded b s dev)
        → and_then net (after_deploy env net version b user id done next) out ≡ (ok r, s')
        → status_of r ≡ succeeded
        → (keys out.1.db ≡ ks)
          × (seen || id == dev ≡ true → Succeeded b out.1 dev)
          × (run net next out.1 ≡ (ok r, s'))
    unfolding and_then
    after_step done id next seen s s' r (raised x, s₁) stepped before e good = cc
    after_step done id next seen s s' r (ok d, s₁) stepped before e good =
        let (fine, rest) = after_deploy-succeeded done id next d s₁ s' r e good in
        (
          stepped.same_keys,
          λ listed. elim (Bool-cases (id == dev)) [
            | inl mine ↦ stepped.own mine fine
            | inr theirs ↦
                let was : seen ≡ true = ground (arith, theirs, listed) in
                let (y, found, st) = before was in (y, stepped.other theirs ∙ found, st)
          ],
          rest,
        )

    pub roll-Succeeded :
        (all done ids : List ℕ) (seen : Bool) (s s' : State) (r : BatchResult)
        → keys s.db ≡ ks
        → All (HasRow b ks) ids
        → (seen ≡ true → Succeeded b s dev)
        → run net (roll env net version b user all done ids) s ≡ (ok r, s')
        → status_of r ≡ succeeded
        → seen || any (λ i. i == dev) ids ≡ true
        → Succeeded b s' dev
    unfolding roll run
    roll-Succeeded all done [] seen s s' r k rows before e good listed =
        let same : s ≡ s' = ap (λ (q : Py BatchResult × State). q.1) e in
        let was : seen ≡ true = ground arith in subst (λ u. Succeeded b u dev) same (before was)
    roll-Succeeded all done (id ∷ ids) seen s s' r k rows before e good listed =
        let one = deploy_to_device env id version user (some b) in
        let next = roll env net version b user all (done ++ (id ∷ [])) ids in
        let (k', before', rest) =
          after_step done id next seen s s' r (run net one s)
            (deploy_to_device-Stepped env net b version user ks dev id s distinct rows.0 k) before
            (sym (run-bind net one (after_deploy env net version b user id done next) s) ∙ e)
            good in
        let still : (seen || id == dev) || any (λ i. i == dev) ids ≡ true = ground arith in
        roll-Succeeded all (done ++ (id ∷ [])) ids (seen || id == dev) _ s' r k' rows.1 before' rest
          good still
