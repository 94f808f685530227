-- ===== src/Orchestrator/Parallel.antt =====
-- core/orchestrator.py: deployments that run in parallel, as the atomic strategy and the canary
-- strategy start them.
use netdeploy.Base.{
  ℕ, zero, suc, String, ◌≡◌, refl, sym, ap, ◌∙◌, Bool, true, false, ◌&&◌, List, [], ◌∷◌, map,
  Option, none, some, All, get_elem?, find?, find?-cons, find?-sound, ◌==◌, ==_iff, inl, inr, arith,
  Bool-cases,
}
use mathlib.Core.Path.{subst}
use mathlib.Core.Option
use netdeploy.Text.{Text}
use netdeploy.Py.{Py}
use netdeploy.Db.{Db, Deployment, find_in_batch}
use netdeploy.Db.Rows.{Key, key, keys, owner, in_batch, row_id, Distinct, find-map}
use netdeploy.Proc.{State, Net, ◌>>=◌}
use netdeploy.Proc.Logic.{Wp, quiet_query}
use netdeploy.Gather.{gather}
use netdeploy.Gather.Logic.{Among, gather-Tasks}
use netdeploy.Snapshots.{Env}
use netdeploy.Orchestrator.Device.{DeviceResult, deploy_to_device, deployment_id_of}
use netdeploy.Orchestrator.Records.{get_deployment_for_batch_device}
use netdeploy.Orchestrator.Rows.{HasKeys, row, Calm}
use netdeploy.Orchestrator.Calm.{Calm-from_row}
use netdeploy.Orchestrator.Outcome.{Recorded, Wp-deploy_to_device}

-- A key that is found belongs to its id.
owner-found :
    (p : Key → Bool) (ks : List Key) {k : Key}
    → Distinct ks
    → find? p ks ≡ some k
    → owner k.0 ks ≡ some k
owner-found p [] u h = cc
owner-found p (x ∷ ks) {k} u h = elim (find?-cons p x ks h) [
  | inl (e, same) ↦ rw (← same) (rw ((==_iff x.0 x.0).1 refl))
  | inr (e, later) ↦
      let found = owner-found p ks u.1 later in
      elim (Bool-cases (x.0 == k.0)) [
        | inl same ↦ cc (u.0, ap (λ i. owner i ks) ((==_iff x.0 k.0).0 same), found)
        | inr differ ↦ rw differ found
      ]
]

-- the row of a device in the batch, known by its key
abbrev pub HasRow : ℕ → List Key → ℕ → Type 0
HasRow b ks dev = (i : ℕ) × (row_id b dev ks ≡ some (i, b, dev))

pub has_row :
    (b dev : ℕ) (d : Db) {x : Deployment} → find_in_batch b dev d ≡ some x → HasRow b (keys d) dev
unfolding find_in_batch
has_row b dev d {x} h =
    let passes : (x.batch_id == b) && (x.device_id == dev) ≡ true =
      find?-sound (λ (y : Deployment). in_batch b dev (key y)) d.deployments h in
    let batch : x.batch_id ≡ b = ground arith in
    let device : x.device_id ≡ dev = ground arith in
    (x.id, find-map (in_batch b dev) d.deployments ∙ (ap (Option.map key) h ∙ cc (batch, device)))

pub row_found :
    (b dev : ℕ) (d : Db) {k : Key}
    → row_id b dev (keys d) ≡ some k
    → (x : Deployment) × (find_in_batch b dev d ≡ some x) × (key x ≡ k)
unfolding find_in_batch
row_found b dev d {k} h =
    go (find_in_batch b dev d) (sym (find-map (in_batch b dev) d.deployments) ∙ h)
  where
    go :
        (o : Option Deployment)
        → Option.map key o ≡ some k
        → (x : Deployment) × (o ≡ some x) × (key x ≡ k)
    go none e = cc
    go (some x) e = (x, refl, cc)

pub Calm-deploy :
    (b : ℕ) (ks : List Key) (dev : ℕ) (env : Env) (mine : ℕ) (version : String) (user : Text)
    → Distinct ks
    → HasRow b ks mine
    → (mine == dev) ≡ false
    → Calm b ks dev (deploy_to_device env mine version user (some b))
unfolding deploy_to_device get_deployment_for_batch_device deployment_id_of ◌>>=◌
Calm-deploy b ks dev env mine version user distinct (i, has) other = quiet_query _ λ d inv.
    let (x, found, same) = row_found b mine d (ap (row_id b mine) inv ∙ has) in
    let own = owner-found (in_batch b mine) ks distinct has in
    let mine_id : x.id ≡ i = ap (λ (k : Key). k.0) same in
    rw found (
      Calm-from_row b ks dev env mine version user x.id
        (subst (λ j. owner j ks ≡ some (j, b, mine)) (sym mine_id) own) other x)

pub Among-map :
    {A B : Type 0} (P O : A → Type 0) (P' O' : B → Type 0) (f : A → B) (n : ℕ) (xs : List A)
    → ((x : A) → P x → P' (f x))
    → ((x : A) → O x → O' (f x))
    → Among P O n xs
    → Among P' O' n (map f xs)
Among-map P O P' O' f zero [] p o h = h
Among-map P O P' O' f (suc n) [] p o h = h
Among-map {A} {B} P O P' O' f zero (x ∷ xs) p o h = (p x h.0, rest xs h.1)
  where
    rest : (ys : List A) → All O ys → All O' (map f ys)
    rest [] k = tt
    rest (y ∷ ys) k = (o y k.0, rest ys k.1)
Among-map P O P' O' f (suc n) (x ∷ xs) p o h = (o x h.0, Among-map P O P' O' f n xs p o h.1)

-- If deployments to several devices run in parallel, the ids of the deployment rows are distinct,
-- every device has a row in the batch and the n-th device is listed only once, then under every
-- schedule that lets all of them end, the n-th result is a result dict, whatever the devices
-- answer or raise, and the row of the n-th device tells it at the end: its status, a set end
-- time and the error message.
pub gather-Recorded :
    (env : Env) (net : Net) (schedule : List ℕ) (b : ℕ) (version : String) (user : Text) (s : State)
    (n : ℕ) (devs : List ℕ) (dev : ℕ) (x : Deployment) (results : List (Py DeviceResult))
    (s' : State)
    → Distinct (keys s.db)
    → find_in_batch b dev s.db ≡ some x
    → Among
        (λ j. j ≡ dev)
        (λ j. ((j == dev) ≡ false) × ((y : Deployment) × (find_in_batch b j s.db ≡ some y)))
        n
        devs
    → gather net schedule (map (λ j. deploy_to_device env j version user (some b)) devs) s
      ≡ some (results, s')
    → (o : Py DeviceResult) × (get_elem? results n ≡ some o)
      × Recorded x.error_message o (find_in_batch b dev s'.db)
gather-Recorded env net schedule b version user s n devs dev x results s' distinct found listed e =
    let ks = keys s.db in
    let tasks =
      Among-map _ _ _ _ (λ j. deploy_to_device env j version user (some b)) n devs
        (λ j same.
          subst
            (λ k.
              Wp (HasKeys b ks) (row b ks dev) (deploy_to_device env k version user (some b))
                (Recorded x.error_message) (find_in_batch b dev s.db))
            (sym same) (rw found (Wp-deploy_to_device b ks distinct env dev version user x)))
        (λ j (other, (y, has)).
          Calm-deploy b ks dev env j version user distinct (has_row b j s.db has) other)
        listed in
    (gather-Tasks (HasKeys b ks) (row b ks dev) (Recorded x.error_message) net schedule n _ s refl
      tasks e).1
