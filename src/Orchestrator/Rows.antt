-- ===== src/Orchestrator/Rows.antt =====
-- How the database helpers of the orchestrator act on the row of one device in one batch, while
-- other tasks run: the ids, batches and devices of the rows stay as they are.
use netdeploy.Base.{
  ℕ, String, ◌≡◌, refl, sym, ap, ◌∙◌, ◌≢◌, Bool, true, false, List, map, Option, none, some, arith,
  find?, ◌==◌, Bool-cases, inl, inr,
}
use mathlib.Core.Path.{subst}
use netdeploy.Text.{Text}
use netdeploy.Value.{Fields}
use netdeploy.Py.{Py, ok}
use netdeploy.Db.{
  Db, Deployment, Status, in_progress, find_deployment, find_in_batch, modify_deployment, add_audit,
  add_snapshot,
}
use netdeploy.Db.Rows.{
  Key, key, keys, owner, in_batch, Distinct, KeepsKey, map-modify_first, found_by_id,
  found_after_modify, found_other,
}
use netdeploy.Proc.{Proc, update, gets, modify}
use netdeploy.Proc.Logic.{
  Wp, Quiet, quiet_ret, quiet_query, quiet_update, After, Wp-bind, Quiet-bind,
}
use netdeploy.Snapshots.{Env, utcnow, uuid4, save_snapshot}
use netdeploy.Orchestrator.Records.{
  is_terminal, with_line, start_time_for, end_time_for, assign, update_found,
  update_deployment_status, append_deployment_log, write_audit,
}

pub assign-KeepsKey :
    (st : Status) (start end : Option ℕ) (err logs : Option Text)
    → KeepsKey (assign st start end err logs)
unfolding assign
assign-KeepsKey st start end err logs d = refl

module _ (b : ℕ) (ks : List Key) where
  abbrev pub HasKeys : Db → Type 0
  HasKeys db = keys db ≡ ks

  abbrev pub row : ℕ → Db → Option Deployment
  row dev = find_in_batch b dev

  module _ (dev : ℕ) where
    abbrev pub Calm : {A : Type 0} → Proc A → Type 0
    Calm = Quiet HasKeys (row dev)

    -- a write that leaves the table of deployments alone
    pub Calm-update :
        {A : Type 0} (f : Db → Db) (p : Proc A)
        → ((d : Db) → (f d).deployments ≡ d.deployments)
        → Calm p
        → Calm (update f p)
    unfolding find_in_batch
    Calm-update f p same q =
        quiet_update f p
          (λ d i. (
            ap (map key) (same d) ∙ i,
            ap (find? (λ (x : Deployment). in_batch b dev (key x))) (same d),
          ))
          q

    pub Calm-gets : {A : Type 0} (f : Db → A) → Calm (gets f)
    Calm-gets f = quiet_query _ (λ d i. quiet_ret (f d))

    pub Calm-utcnow : (env : Env) → Calm (utcnow env)
    unfolding utcnow
    Calm-utcnow env = quiet_query _ (λ d i. Calm-update _ _ (λ d'. refl) (quiet_ret _))

    pub Calm-uuid4 : (env : Env) → Calm (uuid4 env)
    unfolding uuid4
    Calm-uuid4 env = quiet_query _ (λ d i. Calm-update _ _ (λ d'. refl) (quiet_ret _))

    pub Calm-save_snapshot :
        (env : Env) (i j : ℕ) (config : Fields) (before : Bool)
        → Calm (save_snapshot env i j config before)
    unfolding save_snapshot add_snapshot
    Calm-save_snapshot env i j config before = Quiet-bind _ _ _ (Calm-uuid4 env) λ n.
        Quiet-bind _ _ _ (Calm-utcnow env)
          λ t. Quiet-bind _ _ _ (Calm-update _ _ (λ d. refl) (quiet_ret tt)) λ u. quiet_ret (some n)

    pub Calm-write_audit :
        (user : Text) (action : String) (j : ℕ) (details : Fields)
        → Calm (write_audit user action j details)
    unfolding write_audit add_audit
    Calm-write_audit user action j details = Calm-update _ _ (λ d. refl) (quiet_ret tt)

    pub Calm-start_time :
        (env : Env) (st : Status) (old : Option ℕ) → Calm (start_time_for env st old)
    unfolding start_time_for
    Calm-start_time env in_progress none =
        Quiet-bind _ _ _ (Calm-utcnow env) λ t. quiet_ret (some t)
    Calm-start_time env _ old = quiet_ret old

    pub Calm-end_time : (env : Env) (st : Status) (old : Option ℕ) → Calm (end_time_for env st old)
    unfolding end_time_for
    Calm-end_time env st old = elim (Bool-cases (is_terminal st)) [
      | inl h ↦ rw h (Quiet-bind _ _ _ (Calm-utcnow env) λ t. quiet_ret (some t))
      | inr h ↦ rw h (quiet_ret old)
    ]

    -- an assignment to a row of another device
    pub Calm-modify_other :
        (i dev' : ℕ) (f : Deployment → Deployment)
        → KeepsKey f
        → owner i ks ≡ some (i, b, dev')
        → (dev' == dev) ≡ false
        → Calm (modify (modify_deployment i f))
    unfolding find_in_batch modify_deployment
    Calm-modify_other i dev' f keeps own other =
        quiet_update _ _
          (λ d h. (
            map-modify_first i f keeps d.deployments ∙ h,
            found_other (in_batch b dev) i f d.deployments keeps
                (λ k o. not_here (sym o ∙ (ap (owner i) h ∙ own))),
          ))
          (quiet_ret tt)
      where
        not_here :
            {k : Key} → ◌≡◌ {A = Option Key} (some k) (some (i, b, dev')) → in_batch b dev k ≡ false
        not_here {k} h = let e : k ≡ (i, b, dev') = cc in ap (in_batch b dev) e ∙ ground arith

    -- What only reads and draws ends with a value, and the row as it was.
    pub Wp-utcnow :
        (env : Env) (Q : Py ℕ → Option Deployment → Type 0) (r : Option Deployment)
        → ((t : ℕ) → Q (ok t) r)
        → Wp HasKeys (row dev) (utcnow env) Q r
    unfolding Wp utcnow find_in_batch
    Wp-utcnow env Q r h = λ d k e d' k' e'. (k', subst (Q (ok _)) (sym e') (h _))

    pub Wp-modify :
        (f : Db → Db) (Q : Py (Unit {0}) → Option Deployment → Type 0) (r : Option Deployment)
        → ((d : Db) → (f d).deployments ≡ d.deployments)
        → Q (ok tt) r
        → Wp HasKeys (row dev) (modify f) Q r
    unfolding Wp find_in_batch
    Wp-modify f Q r same h = λ d k e. (
      ap (map key) (same d) ∙ k,
      subst (Q (ok tt)) (sym (ap (find? (λ (x : Deployment). in_batch b dev (key x))) (same d) ∙ e))
          h,
    )

    pub Wp-write_audit :
        (user : Text) (action : String) (j : ℕ) (details : Fields)
        (Q : Py (Unit {0}) → Option Deployment → Type 0) (r : Option Deployment)
        → Q (ok tt) r
        → Wp HasKeys (row dev) (write_audit user action j details) Q r
    unfolding write_audit add_audit
    Wp-write_audit user action j details Q r h = Wp-modify _ Q r (λ d. refl) h

    pub Wp-gets :
        {A : Type 0} (f : Db → A) (Q : Py A → Option Deployment → Type 0) (r : Option Deployment)
        → ((a : A) → Q (ok a) r)
        → Wp HasKeys (row dev) (gets f) Q r
    unfolding Wp
    Wp-gets f Q r h = λ d k e. h (f d)

    -- The row itself is read as it is.
    pub Wp-find :
        (Q : Py (Option Deployment) → Option Deployment → Type 0) (r : Option Deployment)
        → Q (ok r) r
        → Wp HasKeys (row dev) (gets (find_in_batch b dev)) Q r
    unfolding Wp
    Wp-find Q r h = λ d k e. subst (λ f. Q (ok f) r) (sym e) h

    Wp-start_time :
        (env : Env) (st : Status) (old : Option ℕ) (Q : Py (Option ℕ) → Option Deployment → Type 0)
        (r : Option Deployment)
        → ((t : Option ℕ) → Q (ok t) r)
        → Wp HasKeys (row dev) (start_time_for env st old) Q r
    unfolding Wp start_time_for After
    Wp-start_time env in_progress none Q r h =
        Wp-bind _ _ (utcnow env) _ Q r (Wp-utcnow env _ r (λ t. h (some t)))
    Wp-start_time env _ old Q r h = h old

    Wp-end_time :
        (env : Env) (st : Status) (old : Option ℕ) (Q : Py (Option ℕ) → Option Deployment → Type 0)
        (r : Option Deployment)
        → ((t : Option ℕ) → (is_terminal st ≡ true → t ≢ none) → Q (ok t) r)
        → Wp HasKeys (row dev) (end_time_for env st old) Q r
    unfolding Wp end_time_for After
    Wp-end_time env st old Q r h = elim (Bool-cases (is_terminal st)) [
      | inl terminal ↦
          rw terminal
            (Wp-bind _ _ (utcnow env) _ Q r (Wp-utcnow env _ r (λ t. h (some t) (λ e. λ x. cc))))
      | inr going ↦ rw going (h old (λ e. cc))
    ]

    module _ (distinct : Distinct ks) where
      modify-own :
          (f : Deployment → Deployment) (x : Deployment)
          (Q : Py (Unit {0}) → Option Deployment → Type 0)
          → KeepsKey f
          → Q (ok tt) (some (f x))
          → Wp HasKeys (row dev) (modify (modify_deployment x.id f)) Q (some x)
      unfolding Wp find_in_batch modify_deployment
      modify-own f x Q keeps h = λ d k e. (
        map-modify_first x.id f keeps d.deployments ∙ k,
        subst (Q (ok tt))
            (sym (
              found_after_modify (in_batch b dev) f d.deployments keeps
                (subst Distinct (sym k) distinct) e))
            h,
      )

      pub Wp-update :
          (env : Env) (x : Deployment) (st : Status) (err logs : Option Text)
          (Q : Py (Unit {0}) → Option Deployment → Type 0)
          → ((start end : Option ℕ)
              → (is_terminal st ≡ true → end ≢ none)
              → Q (ok tt) (some (assign st start end err logs x)))
          → Wp HasKeys (row dev) (update_deployment_status env x.id st err logs) Q (some x)
      unfolding Wp update_deployment_status update_found After find_deployment find_in_batch
      Wp-update env x st err logs Q h = Wp-bind _ _ (gets (find_deployment x.id)) _ Q _ (λ d k e.
          rw (found_by_id (in_batch b dev) d.deployments (subst Distinct (sym k) distinct) e) (
            Wp-bind _ _ (start_time_for env st x.start_time) _ Q _ (
              Wp-start_time env st x.start_time _ _ λ start.
                Wp-bind _ _ (end_time_for env st x.end_time) _ Q _ (
                  Wp-end_time env st x.end_time _ _ λ end ended.
                    modify-own (assign st start end err logs) x Q
                      (assign-KeepsKey st start end err logs) (h start end ended)))))

      pub Wp-append :
          (x : Deployment) (line : Text) (Q : Py (Unit {0}) → Option Deployment → Type 0)
          → Q (ok tt) (some (record x { logs = with_line x.logs line }))
          → Wp HasKeys (row dev) (append_deployment_log x.id line) Q (some x)
      unfolding append_deployment_log
      Wp-append x line Q h =
          modify-own (λ d. record d { logs = with_line d.logs line }) x Q (λ d. refl) h
