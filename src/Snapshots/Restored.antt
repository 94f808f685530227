-- ===== src/Snapshots/Restored.antt =====
-- core/snapshot_manager.py: what a restore sends is what the backup holds.
use netdeploy.Base.{
  ℕ, ◌≡◌, refl, ap, ◌∙◌, ◌<◌, Bool, true, false, ◌&&◌, List, [], ◌∷◌, ◌++◌, Option, none, some, All,
  All-map, keep, ltb, ◌==◌, Bool-cases, inl, inr, arith,
}
use netdeploy.Text.{Text}
use netdeploy.Value.{lookup}
use netdeploy.Py.{Py, ok, raised}
use netdeploy.Db.{ConfigSnapshot, older, earliest, add_snapshot}
use netdeploy.Proc.{
  Target, Call, show, configure, State, Proc, ◌>>=◌, ret, lift, attempt, try_except, Net, sent, run,
}
use netdeploy.Ssh.{
  SshDevice, running_config_command, is_clean, applied, send_config_set, get_running_config,
  send_command,
}
use netdeploy.Snapshots.{
  Env, utcnow, uuid4, save_snapshot, captured, capture_running_config, raw_lines, restore_snapshot,
  restore_before, restore_config, lines_of, first_snapshot, config_before_of,
}
use netdeploy.Orchestrator.Device.{or_empty}

module _ {A : Type 0} (key : A → ℕ) where
  abbrev Later : ℕ → Option A → Type 0
  Later t none = Unit
  Later t (some a) = t < key a

  older-Later : (t : ℕ) (a : A) (o : Option A) → t < key a → Later t o → Later t (older key a o)
  unfolding older
  older-Later t a none h k = h
  older-Later t a (some b) h k = elim (Bool-cases (ltb (key b) (key a))) [
    | inl e ↦ rw e k
    | inr e ↦ rw e h
  ]

  earliest-Later : (t : ℕ) (xs : List A) → All (λ a. t < key a) xs → Later t (earliest key xs)
  unfolding earliest
  earliest-Later t [] h = tt
  earliest-Later t (a ∷ xs) h = older-Later t a (earliest key xs) h.0 (earliest-Later t xs h.1)

  older-first : (a : A) (o : Option A) → Later (key a) o → older key a o ≡ some a
  unfolding older
  older-first a none h = refl
  older-first a (some b) h = let e : ltb (key b) (key a) ≡ false = ground (arith, h) in rw e refl

  kept-Later :
      (p : A → Bool) (t : ℕ) (xs : List A)
      → All (λ a. t < key a) xs
      → All (λ a. t < key a) (keep p xs)
  kept-Later p t [] h = tt
  kept-Later p t (a ∷ xs) h = elim (Bool-cases (p a)) [
    | inl e ↦ rw e (h.0, kept-Later p t xs h.1)
    | inr e ↦ rw e (kept-Later p t xs h.1)
  ]

  -- Of the elements that pass a test, the first that is added is the earliest if those added after it
  -- are later.
  earliest-added :
      (p : A → Bool) (xs : List A) (a : A) (ys : List A)
      → All (λ x. p x ≡ false) xs
      → p a ≡ true
      → All (λ y. key a < key y) ys
      → earliest key (keep p ((xs ++ (a ∷ [])) ++ ys)) ≡ some a
  unfolding earliest
  earliest-added p [] a ys none_before passes later = rw passes (
      older-first a (earliest key (keep p ys))
        (earliest-Later (key a) (keep p ys) (kept-Later p (key a) ys later)))
  earliest-added p (x ∷ xs) a ys none_before passes later =
      rw none_before.0 (earliest-added p xs a ys none_before.1 passes later)

-- No snapshot of the device within the deployment.
abbrev pub NoneYet : ℕ → ℕ → List ConfigSnapshot → Type 0
NoneYet deployment_id device_id =
    All (λ r. ¬ ((r.deployment_id ≡ deployment_id) × (r.device_id ≡ device_id)))

not_of : (i j a b : ℕ) → ¬ ((a ≡ i) × (b ≡ j)) → (a == i) && (b == j) ≡ false
not_of i j a b h = ground (arith, h)

both : (i j : ℕ) → (i == i) && (j == j) ≡ true
both i j = ground arith

module _ (net : Net) (env : Env) (target : Target) (deployment_id device_id : ℕ) where
  abbrev session : SshDevice
  session = record { target = target; is_open = true }

  -- step 3 of a deployment
  abbrev pub backup : Proc (Option ℕ)
  backup = do
    running ← capture_running_config session
    save_snapshot env deployment_id device_id (or_empty running) true

  abbrev asked : Call
  asked = show target (running_config_command target.device_type)

  -- Whether a config set was accepted.
  abbrev accepted : Py Text → Bool
  accepted (ok output) = is_clean output
  accepted (raised e) = false

  -- What a restore does, given the answer that the backup got.
  abbrev pub restored : Py Text → State → Py Bool × State
  restored (raised e) t = (ok false, t)
  restored (ok raw) t =
      let c = configure target (raw_lines raw) in
      (ok (accepted (net t.wire c)), sent c (net t.wire c) t)

  abbrev snapshot_of : State → Py Text → ConfigSnapshot
  unfolding captured
  snapshot_of s r = record {
    id = env.fresh s.db.ids_drawn;
    deployment_id = deployment_id;
    device_id = device_id;
    config_before = some (or_empty (captured r));
    config_after = none;
    applied_at = env.now s.db.clock_reads;
    snapshot_hash = env.json_hash (or_empty (captured r));
  }

  save_read :
      (s : State) (r : Py Text)
      → (run net
          ((attempt (lift r) >>= λ raw. ret (captured raw)) >>= λ running.
            save_snapshot env deployment_id device_id (or_empty running) true)
          s).1.db.snapshots
        ≡ s.db.snapshots ++ (snapshot_of s r ∷ [])
  unfolding run ◌>>=◌ attempt save_snapshot uuid4 utcnow add_snapshot snapshot_of
  save_read s (ok raw) = refl
  save_read s (raised e) = refl

  saved :
      (s : State)
      → (run net backup s).1.db.snapshots
        ≡ s.db.snapshots ++ (snapshot_of s (net s.wire asked) ∷ [])
  unfolding run ◌>>=◌ attempt capture_running_config get_running_config send_command
  saved s = let r = net s.wire asked in save_read (sent asked r s) r

  sends :
      (t : State) (r : Py Text)
      → run net (try_except (applied r) (λ e. ret false)) t ≡ (ok (accepted r), t)
  unfolding run try_except applied
  sends t (ok output) = refl
  sends t (raised e) = refl

  restores :
      (t : State) (r : Py Text)
      → run net
          (try_except
            (restore_before (some session) (some (or_empty (captured r))))
            (λ e. ret false))
          t
        ≡ restored r t
  unfolding run ◌>>=◌ try_except restore_before restore_config lookup send_config_set lines_of
      captured
  restores t (raised e) = refl
  restores t (ok raw) =
      let c = configure target (raw_lines raw) in sends (sent c (net t.wire c) t) (net t.wire c)

  -- A backup is what a restore sends. Say that the session is open, that the device has no snapshot
  -- within the deployment before the backup, and that since then snapshots were at most added, at
  -- later times. If the device answered the backup, then the restore sends the lines of the answer
  -- without the blank ones and the comments, and returns whether they were accepted. If it raised,
  -- then the restore sends nothing and returns False.
  pub restore_snapshot-backup :
      (s : State) (since : List ConfigSnapshot) (t : State)
      → NoneYet deployment_id device_id s.db.snapshots
      → t.db.snapshots ≡ (run net backup s).1.db.snapshots ++ since
      → All (λ r. env.now s.db.clock_reads < r.applied_at) since
      → run net (restore_snapshot (some session) deployment_id device_id) t
        ≡ restored (net s.wire asked) t
  unfolding restore_snapshot run try_except ◌>>=◌ first_snapshot config_before_of snapshot_of
  restore_snapshot-backup s since t none_yet added later =
      let r = net s.wire asked in
      let mine =
        λ (x : ConfigSnapshot). (x.deployment_id == deployment_id) && (x.device_id == device_id) in
      let found =
        ap (λ xs. earliest (λ (x : ConfigSnapshot). x.applied_at) (keep mine xs))
          (added ∙ ap (λ xs. xs ++ since) (saved s))
        ∙ earliest-added (λ (x : ConfigSnapshot). x.applied_at) mine s.db.snapshots
            (snapshot_of s r) since
            (All-map s.db.snapshots
              (λ x h. not_of deployment_id device_id x.deployment_id x.device_id h) none_yet)
            (both deployment_id device_id) later in
      ap
        (λ o.
          run net (try_except (restore_before (some session) (config_before_of o)) (λ e. ret false))
            t)
        found
      ∙ restores t r
