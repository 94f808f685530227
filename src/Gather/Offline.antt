-- ===== src/Gather/Offline.antt =====
-- `asyncio.gather` of tasks that call no device: they end before the first reply.
use netdeploy.Base.{◌≡◌, refl, ℕ, zero, suc, List, [], ◌∷◌, map, some, All}
use netdeploy.Py.{Py, ok, raised, Exn}
use netdeploy.Db.{Db}
use netdeploy.Proc.{State, Proc, ret, throw, Net}
use netdeploy.Proc.Offline.{Offline, offline_ret, offline_throw, offline_query, offline_update}
use netdeploy.Gather.{
  settle, resume, start_all, resume_at, follow, outcome, outcomes, finished, gather,
}

pub data Done {A : Type 0} : Proc A → Type 0 where
  done_ret : (a : A) → Done (ret a)
  done_throw : (e : Exn) → Done (throw e)

settle-Offline : {A : Type 0} {p : Proc A} (d : Db) → Offline p → Done (settle p d).0
unfolding settle
settle-Offline d (offline_ret a) = done_ret a
settle-Offline d (offline_throw e) = done_throw e
settle-Offline d (offline_query k q) = settle-Offline d (q d)
settle-Offline d (offline_update f p q) = settle-Offline (f d) q

start_all-Offline :
    {A B : Type 0} (f : B → Proc A) (xs : List B) (d : Db)
    → ((x : B) → Offline (f x))
    → All Done (start_all (map f xs) d).0
unfolding start_all
start_all-Offline f [] d h = tt
start_all-Offline f (x ∷ xs) d h = (settle-Offline d (h x), start_all-Offline f xs _ h)

resume-Done : {A : Type 0} (net : Net) {p : Proc A} (s : State) → Done p → resume net p s ≡ (p, s)
unfolding resume
resume-Done net s (done_ret a) = refl
resume-Done net s (done_throw e) = refl

resume_at-Done :
    {A : Type 0} (net : Net) (i : ℕ) (ps : List (Proc A)) (s : State)
    → All Done ps
    → resume_at net i ps s ≡ (ps, s)
unfolding resume_at
resume_at-Done net i [] s h = refl
resume_at-Done net zero (p ∷ ps) s h = rw (resume-Done net s h.0)
resume_at-Done net (suc i) (p ∷ ps) s h = rw (resume_at-Done net i ps s h.1)

follow-Done :
    {A : Type 0} (net : Net) (schedule : List ℕ) (ps : List (Proc A)) (s : State)
    → All Done ps
    → follow net schedule ps s ≡ (ps, s)
unfolding follow
follow-Done net [] ps s h = refl
follow-Done net (i ∷ schedule) ps s h =
    rw (resume_at-Done net i ps s h) (follow-Done net schedule ps s h)

pub outcomes-Done :
    {A : Type 0} (ps : List (Proc A)) → All Done ps → (os : List (Py A)) × (outcomes ps ≡ some os)
unfolding outcomes
outcomes-Done [] h = ([], refl)
outcomes-Done (p ∷ ps) h =
    let (o, e) = ended h.0 in let (os, es) = outcomes-Done ps h.1 in (o ∷ os, rw (e, es))
  where
    ended : {A : Type 0} {p : Proc A} → Done p → (o : Py A) × (outcome p ≡ some o)
    ended (done_ret a) = (ok a, refl)
    ended (done_throw e) = (raised e, refl)

-- Whatever the schedule, they all end, and nothing is called.
pub gather-Offline :
    {A B : Type 0} (net : Net) (schedule : List ℕ) (f : B → Proc A) (xs : List B) (s : State)
    → ((x : B) → Offline (f x))
    → (os : List (Py A)) × (s' : State) × (gather net schedule (map f xs) s ≡ some (os, s'))
      × (s'.wire ≡ s.wire)
unfolding gather finished
gather-Offline net schedule f xs s h =
    let done = start_all-Offline f xs s.db h in
    let (os, e) = outcomes-Done _ done in
    let s' : State = record s { db = (start_all (map f xs) s.db).1 } in
    (os, s', rw (follow-Done net schedule _ s' done) (rw e), refl)
