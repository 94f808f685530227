-- ===== src/Gather/Ends.antt =====
-- `asyncio.gather` can always be scheduled to its end.
use netdeploy.Base.{◌≡◌, refl, sym, ap, ◌∙◌, ℕ, zero, suc, List, [], ◌∷◌, ◌++◌, map, some, All}
use mathlib.Core.Path.{subst}
use netdeploy.Py.{Py, Exn}
use netdeploy.Db.{Db}
use netdeploy.Proc.{State, Proc, ret, throw, await, query, update, Net, Call, sent}
use netdeploy.Gather.{settle, resume, start_all, resume_at, follow, finished, gather}
use netdeploy.Gather.Offline.{Done, done_ret, done_throw, outcomes-Done}

zeros : ℕ → List ℕ
zeros zero = []
zeros (suc n) = zero ∷ zeros n

module _ {A : Type 0} (net : Net) where
  -- a task that has ended or awaits a reply
  data Settled : Proc A → Type 0 where
    settled_ret : (a : A) → Settled (ret a)
    settled_throw : (e : Exn) → Settled (throw e)
    settled_await : (c : Call) (k : Py _ → Proc A) → Settled (await c k)

  settle-Settled : (p : Proc A) (d : Db) → Settled (settle p d).0
  unfolding settle
  settle-Settled (ret a) d = settled_ret a
  settle-Settled (throw e) d = settled_throw e
  settle-Settled (await c k) d = settled_await c k
  settle-Settled (query k) d = settle-Settled (k d) d
  settle-Settled (update f p) d = settle-Settled p (f d)

  start_all-Settled : (ps : List (Proc A)) (d : Db) → All Settled (start_all ps d).0
  unfolding start_all
  start_all-Settled [] d = tt
  start_all-Settled (p ∷ ps) d = (settle-Settled p d, start_all-Settled ps _)

  -- n replies for one task
  advance : ℕ → Proc A → State → Proc A × State
  advance zero p s = (p, s)
  advance (suc n) p s = let (q, s₁) = resume net p s in advance n q s₁

  settle-ends :
      (p : Proc A) (s : State)
      → (n : ℕ) × Done (advance n (settle p s.db).0 (record s { db = (settle p s.db).1 })).0
  unfolding settle resume advance
  settle-ends (ret a) s = (0, done_ret a)
  settle-ends (throw e) s = (0, done_throw e)
  settle-ends (await c k) s =
      let r = net s.wire c in let (n, done) = settle-ends (k r) (sent c r s) in (suc n, done)
  settle-ends (query k) s = settle-ends (k s.db) s
  settle-ends (update f p) s = settle-ends p (record s { db = f s.db })

  advance-ends : {p : Proc A} (s : State) → Settled p → (n : ℕ) × Done (advance n p s).0
  unfolding resume advance
  advance-ends s (settled_ret a) = (0, done_ret a)
  advance-ends s (settled_throw e) = (0, done_throw e)
  advance-ends s (settled_await c k) =
      let r = net s.wire c in let (n, done) = settle-ends (k r) (sent c r s) in (suc n, done)

  follow-zeros :
      (n : ℕ) (p : Proc A) (ps : List (Proc A)) (s : State)
      → follow net (zeros n) (p ∷ ps) s ≡ ((advance n p s).0 ∷ ps, (advance n p s).1)
  unfolding follow resume_at zeros advance
  follow-zeros zero p ps s = refl
  follow-zeros (suc n) p ps s = follow-zeros n (resume net p s).0 ps (resume net p s).1

  follow-map-suc :
      (schedule : List ℕ) (p : Proc A) (ps : List (Proc A)) (s : State)
      → follow net (map (λ i. suc i) schedule) (p ∷ ps) s
        ≡ (p ∷ (follow net schedule ps s).0, (follow net schedule ps s).1)
  unfolding follow resume_at
  follow-map-suc [] p ps s = refl
  follow-map-suc (i ∷ schedule) p ps s =
      follow-map-suc schedule p (resume_at net i ps s).0 (resume_at net i ps s).1

  follow-append :
      (xs ys : List ℕ) (ps : List (Proc A)) (s : State)
      → follow net (xs ++ ys) ps s ≡ follow net ys (follow net xs ps s).0 (follow net xs ps s).1
  unfolding follow
  follow-append [] ys ps s = refl
  follow-append (i ∷ xs) ys ps s =
      follow-append xs ys (resume_at net i ps s).0 (resume_at net i ps s).1

  follow-ends :
      (ps : List (Proc A)) (s : State)
      → All Settled ps
      → (schedule : List ℕ) × All Done (follow net schedule ps s).0
  unfolding follow
  follow-ends [] s h = ([], tt)
  follow-ends (p ∷ ps) s h =
      let (n, done) = advance-ends s h.0 in
      let (q, s₁) = advance n p s in
      let (schedule, rest) = follow-ends ps s₁ h.1 in
      let e =
        follow-append (zeros n) (map (λ i. suc i) schedule) (p ∷ ps) s
        ∙ (ap (λ z. follow net (map (λ i. suc i) schedule) z.0 z.1) (follow-zeros n p ps s)
            ∙ follow-map-suc schedule q ps s₁) in
      (zeros n ++ map (λ i. suc i) schedule, subst (λ z. All Done z.0) (sym e) (done, rest))

  -- One task after the other is a schedule under which all of them end.
  pub gather-ends :
      (ps : List (Proc A)) (s : State)
      → (schedule : List ℕ) × (r : List (Py A) × State) × (gather net schedule ps s ≡ some r)
  unfolding gather finished
  gather-ends ps s =
      let s₀ : State = record s { db = (start_all ps s.db).1 } in
      let (schedule, done) = follow-ends (start_all ps s.db).0 s₀ (start_all-Settled ps s.db) in
      let (os, e) = outcomes-Done (follow net schedule (start_all ps s.db).0 s₀).0 done in
      (schedule, (os, (follow net schedule (start_all ps s.db).0 s₀).1), rw e)
