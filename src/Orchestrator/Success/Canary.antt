-- ===== src/Orchestrator/Success/Canary.antt =====
-- core/orchestrator.py: a canary deployment that reports success.
use mathlib.Core.Logic.{◌≢◌}
use netdeploy.Base.{
  ℕ, zero, suc, String, ◌≡◌, refl, sym, ap, ◌∙◌, Bool, true, false, ◌||◌, not, List, [], ◌∷◌, ◌++◌,
  map, Option, none, some, All, All-map, All-and, All-over, any, arith, get_elem?, ◌==◌, Bool-cases,
  inl, inr, if◌then◌else◌,
}
use mathlib.Core.Path.{subst}
use netdeploy.Text.{Text, codes}
use netdeploy.Py.{Py, ok, raised}
use netdeploy.Db.{Deployment, find_in_batch}
use netdeploy.Db.Rows.{Key, keys, row_id, Distinct}
use netdeploy.Proc.{State, Proc, ret, ◌>>=◌, Net, run}
use netdeploy.Proc.Run.{and_then, run-bind}
use netdeploy.Proc.Total.{run-Total}
use netdeploy.Gather.{gather}
use netdeploy.Gather.Logic.{gather-Quiet}
use netdeploy.Snapshots.{Env}
use netdeploy.Orchestrator.{
  BatchResult, canary_failed, canary_unhealthy, canary_done, succeeded, status_of, has_failed,
  count_failed, canary_stage, judge_canary, judge_health, after_canary, after_rest, deploy_canary,
  shown,
}
use netdeploy.Orchestrator.Device.{
  DeviceResult, deploy_to_device, health_check, rollback_device, id_text,
}
use netdeploy.Orchestrator.Parallel.{HasRow, row_found, Calm-deploy}
use netdeploy.Orchestrator.Health.{run-health_check}
use netdeploy.Orchestrator.Rows.{HasKeys, row}
use netdeploy.Orchestrator.Leaves.{Unique, once_or_never}
use netdeploy.Orchestrator.Total.{Total-rollback_device}
use netdeploy.Orchestrator.Success.{Succeeded, once-Succeeded, not_listed}
use netdeploy.Orchestrator.Success.Step.{Stepped, deploy_to_device-Stepped}

-- Where no failure is counted, none of the results is one.
count_failed-zero :
    (os : List (Py DeviceResult)) (n : ℕ) {o : Py DeviceResult}
    → count_failed os ≡ 0
    → get_elem? os n ≡ some o
    → has_failed o ≡ false
unfolding count_failed
count_failed-zero [] n e there = cc
count_failed-zero (x ∷ xs) zero {o} e there = elim (Bool-cases (has_failed x)) [
  | inl bad ↦ ground arith
  | inr good ↦ let same : x ≡ o = cc in ap has_failed (sym same) ∙ good
]
count_failed-zero (x ∷ xs) (suc n) e there = elim (Bool-cases (has_failed x)) [
  | inl bad ↦ ground arith
  | inr good ↦ let rest : count_failed xs ≡ 0 = ground arith in count_failed-zero xs n rest there
]

module _ (env : Env) (net : Net) (b : ℕ) (version : String) (user : Text) (schedule : List ℕ)
    (id : ℕ) (rest : List ℕ) (r : BatchResult) (s' : State) (good : status_of r ≡ succeeded) where
  not_the_result :
      (x : BatchResult) (s : State)
      → ◌≡◌ {A = Option (Py BatchResult × State)} (some (ok x, s)) (some (ok r, s'))
      → status_of x ≢ succeeded
      → ⊥
  not_the_result x s e bad = let same : x ≡ r = cc in bad (ap status_of same ∙ good)

  -- The other devices are deployed only after a success of the canary.
  judge_canary-succeeded :
      (d : DeviceResult) (s : State)
      → after_canary env net version b user schedule id rest
          (run net (judge_canary env net version b user id d) s)
        ≡ some (ok r, s')
      → (has_failed (ok d) ≡ false)
        × (after_rest env net version b user
              (id ∷ rest)
              (gather net schedule (map (λ j. deploy_to_device env j version user (some b)) rest) s)
            ≡ some (ok r, s'))
  unfolding judge_canary judge_health after_canary has_failed run and_then status_of
  judge_canary-succeeded d s e = judge d.success e
    where
      healthy_rest :
          (h : Bool)
          → after_canary env net version b user schedule id rest
              (and_then net (judge_health env net version b user id) (ok h, s))
            ≡ some (ok r, s')
          → after_rest env net version b user
              (id ∷ rest)
              (gather net schedule (map (λ j. deploy_to_device env j version user (some b)) rest) s)
            ≡ some (ok r, s')
      healthy_rest true e' = e'
      healthy_rest false e' =
          let stop = canary_unhealthy b (codes "Canary health check failed for " ++ id_text id) in
          let (u, s₁, done) = run-Total net s (Total-rollback_device id user) in
          let ends =
            run-bind net (rollback_device id user) (λ x. ret (some stop)) s
            ∙ ap (and_then net (λ (x : Bool). ret (some stop))) done in
          elim (not_the_result stop s₁
            (sym (ap (after_canary env net version b user schedule id rest) ends) ∙ e')
            (λ q. cc)) [ ]

      judge :
          (t : Bool)
          → after_canary env net version b user schedule id rest (
              run net
                (if t
                  then health_check id >>= judge_health env net version b user id
                  else ret (
                      some (
                        canary_failed b (
                          codes "Canary device "
                          ++ (id_text id ++ (codes " failed: " ++ shown d.error))))))
                s)
            ≡ some (ok r, s')
          → (not t ≡ false)
            × (after_rest env net version b user (id ∷ rest) (
                  gather net schedule
                    (map (λ j. deploy_to_device env j version user (some b)) rest)
                    s)
                ≡ some (ok r, s'))
      judge true e' =
          let f = judge_health env net version b user id in
          let (h, healthy) = run-health_check net id s in
          let ends = run-bind net (health_check id) f s ∙ ap (and_then net f) healthy in
          (
            refl,
            healthy_rest h
                (sym (ap (after_canary env net version b user schedule id rest) ends) ∙ e'),
          )
      judge false e' = elim (not_the_result _ s e' (λ q. cc)) [ ]

  -- After a success every result was counted as one.
  after_rest-succeeded :
      (os : List (Py DeviceResult)) (s : State)
      → after_rest env net version b user (id ∷ rest) (some (os, s)) ≡ some (ok r, s')
      → (count_failed os ≡ 0) × (s ≡ s')
  unfolding after_rest status_of
  after_rest-succeeded os s e = count (count_failed os) e
    where
      count :
          (n : ℕ)
          → ◌≡◌ {A = Option (Py BatchResult × State)}
              (some (ok (canary_done b (id ∷ rest) n), s))
              (some (ok r, s'))
          → (n ≡ 0) × (s ≡ s')
      count zero e' = (refl, cc)
      count (suc n) e' = elim (not_the_result _ s e' (λ q. cc)) [ ]

  module _ (ks : List Key) (distinct : Distinct ks) (dev : ℕ) where
    abbrev one : ℕ → Proc DeviceResult
    one j = deploy_to_device env j version user (some b)

    -- the other devices, run in parallel
    rest-Succeeded :
        (s₁ : State) (g : Option (List (Py DeviceResult) × State))
        → keys s₁.db ≡ ks
        → Unique rest
        → All (HasRow b ks) rest
        → HasRow b ks dev
        → ((id == dev) ≡ true → Succeeded b s₁ dev)
        → gather net schedule (map one rest) s₁ ≡ g
        → after_rest env net version b user (id ∷ rest) g ≡ some (ok r, s')
        → id == dev || any (λ i. i == dev) rest ≡ true
        → Succeeded b s' dev
    unfolding after_rest
    rest-Succeeded s₁ none k unique rows has first e done listed = cc
    rest-Succeeded s₁ (some (os, s₂)) k unique rows has first e done listed =
        let (none_failed, same) = after_rest-succeeded os s₂ done in
        subst (λ u. Succeeded b u dev) same
          (elim (once_or_never dev rest unique) [
            | inl never ↦
                let absent = not_listed dev rest never in
                let mine : (id == dev) ≡ true = ground (arith, listed, absent) in
                let quiet = All-over _ one rest (
                  All-map rest
                    (λ j (other, h). Calm-deploy b ks dev env j version user distinct h other)
                    (All-and _ _ rest never rows)) in
                let (_, kept) =
                  gather-Quiet (HasKeys b ks) (row b ks dev) (λ o q. Unit {0}) net schedule
                    (map one rest) s₁ k quiet e in
                let (y, found, st) = first mine in (y, kept ∙ found, st)
            | inr (n, once) ↦
                once-Succeeded env net b version user rest schedule s₁ s₂ os dev n
                  (subst Distinct (sym k) distinct) (All-map rest there rows) e once (there dev has)
                  (λ o at found. count_failed-zero os n none_failed found)
          ])
      where
        there : (j : ℕ) → HasRow b ks j → (x : Deployment) × (find_in_batch b j s₁.db ≡ some x)
        there j h = let (x, found, _) = row_found b j s₁.db (ap (row_id b j) k ∙ h.1) in (x, found)

    after_one :
        (s : State) (out : Py DeviceResult × State)
        → Stepped b ks dev id s out
        → Unique rest
        → All (HasRow b ks) rest
        → HasRow b ks dev
        → after_canary env net version b user schedule id rest
            (and_then net (judge_canary env net version b user id) out)
          ≡ some (ok r, s')
        → id == dev || any (λ i. i == dev) rest ≡ true
        → Succeeded b s' dev
    unfolding and_then after_canary
    after_one s (raised x, s₁) stepped unique rows has e listed = cc
    after_one s (ok d, s₁) stepped unique rows has e listed =
        let (fine, done) = judge_canary-succeeded d s₁ e in
        rest-Succeeded s₁ _ stepped.same_keys unique rows has (λ mine. stepped.own mine fine) refl
          done listed

    pub canary-Succeeded :
        (s : State)
        → keys s.db ≡ ks
        → Unique rest
        → All (HasRow b ks) (id ∷ rest)
        → HasRow b ks dev
        → deploy_canary env net version b user schedule (id ∷ rest) s ≡ some (ok r, s')
        → any (λ i. i == dev) (id ∷ rest) ≡ true
        → Succeeded b s' dev
    unfolding deploy_canary canary_stage
    canary-Succeeded s k unique rows has e listed =
        after_one s (run net (one id) s)
          (deploy_to_device-Stepped env net b version user ks dev id s distinct rows.0 k) unique
          rows.1 has
          (sym (
              ap (after_canary env net version b user schedule id rest)
                (run-bind net (one id) (judge_canary env net version b user id) s))
            ∙ e)
          listed
