-- ===== src/Gather/Logic.antt =====
-- One task of `asyncio.gather` beside others that leave its view of the database alone.
use netdeploy.Base.{
  ◌≡◌, refl, sym, ap, ◌∙◌, ℕ, zero, suc, List, [], ◌∷◌, Option, none, some, All, get_elem?,
}
use mathlib.Core.Path.{subst}
use netdeploy.Py.{Py, ok, raised}
use netdeploy.Db.{Db}
use netdeploy.Proc.{State, Proc, ret, throw, await, query, update, Net}
use netdeploy.Proc.Logic.{Wp, Quiet, settle-Wp, settle-Quiet, resume-Wp, resume-Quiet}
use netdeploy.Gather.{
  settle, start_all, resume_at, follow, outcome, cons_outcome, outcomes, finished, gather,
}

-- The n-th element passes `P`, and all others pass `O`.
abbrev pub Among : {A : Type 0} → (A → Type 0) → (A → Type 0) → ℕ → List A → Type 0
Among P O n [] = ⊥
Among P O zero (x ∷ xs) = P x × All O xs
Among P O (suc n) (x ∷ xs) = O x × Among P O n xs

cons_outcome-eq-some :
    {A : Type 0} (o : Option (Py A)) (rest : Option (List (Py A))) {os : List (Py A)}
    → cons_outcome o rest ≡ some os
    → (a : Py A) × (tail : List (Py A)) × (o ≡ some a) × (rest ≡ some tail) × (a ∷ tail ≡ os)
unfolding cons_outcome
cons_outcome-eq-some (some a) (some xs) e = (a, xs, refl, refl, cc)
cons_outcome-eq-some none rest e = cc
cons_outcome-eq-some (some a) none e = cc

finished-eq-some :
    {A : Type 0} (o : Option (List (Py A))) (s : State) {os : List (Py A)} {s' : State}
    → finished o s ≡ some (os, s')
    → (o ≡ some os) × (s ≡ s')
unfolding finished
finished-eq-some none s e = cc
finished-eq-some (some xs) s {os} {s'} e =
    let pair : ◌≡◌ {A = List (Py _) × State} (xs, s) (os, s') = cc in
    (ap (λ q. some q.0) pair, ap (λ q. q.1) pair)

module _ {R : Type 0} (Inv : Db → Type 0) (view : Db → R) {A : Type 0} (Q : Py A → R → Type 0) where
  abbrev Calm : Proc A → Type 0
  Calm = Quiet Inv view

  -- the tasks, of which the n-th is to end in `Q`
  abbrev pub Tasks : ℕ → R → List (Proc A) → Type 0
  Tasks n r = Among (λ p. Wp Inv view p Q r) Calm n

  start_all-Quiet :
      (ps : List (Proc A)) (d : Db)
      → Inv d
      → All Calm ps
      → let (qs, d') = start_all ps d in Inv d' × All Calm qs × (view d' ≡ view d)
  unfolding start_all
  start_all-Quiet [] d i h = (i, tt, refl)
  start_all-Quiet (p ∷ ps) d i h =
      let (i₁, q, e) = settle-Quiet Inv view d i h.0 in
      let (i₂, qs, e₂) = start_all-Quiet ps (settle p d).1 i₁ h.1 in (i₂, (q, qs), e₂ ∙ e)

  start_all-Tasks :
      (n : ℕ) (ps : List (Proc A)) (d : Db)
      → Inv d
      → Tasks n (view d) ps
      → let (qs, d') = start_all ps d in Inv d' × Tasks n (view d') qs
  unfolding start_all
  start_all-Tasks zero (p ∷ ps) d i h =
      let (i₁, q) = settle-Wp Inv view p Q d i h.0 in
      let (i₂, qs, e) = start_all-Quiet ps (settle p d).1 i₁ h.1 in
      (i₂, (subst (Wp Inv view (settle p d).0 Q) (sym e) q, qs))
  start_all-Tasks (suc n) (p ∷ ps) d i h =
      let (i₁, q, e) = settle-Quiet Inv view d i h.0 in
      let (i₂, qs) =
        start_all-Tasks n ps (settle p d).1 i₁ (subst (λ r. Tasks n r ps) (sym e) h.1) in
      (i₂, (q, qs))
  start_all-Tasks zero [] d i h = (i, h)
  start_all-Tasks (suc n) [] d i h = (i, h)

  resume_at-Quiet :
      (net : Net) (k : ℕ) (ps : List (Proc A)) (s : State)
      → Inv s.db
      → All Calm ps
      → let (qs, s') = resume_at net k ps s in Inv s'.db × All Calm qs × (view s'.db ≡ view s.db)
  unfolding resume_at
  resume_at-Quiet net k [] s i h = (i, tt, refl)
  resume_at-Quiet net zero (p ∷ ps) s i h =
      let (i₁, q, e) = resume-Quiet Inv view net s i h.0 in (i₁, (q, h.1), e)
  resume_at-Quiet net (suc k) (p ∷ ps) s i h =
      let (i₁, qs, e) = resume_at-Quiet net k ps s i h.1 in (i₁, (h.0, qs), e)

  resume_at-Tasks :
      (net : Net) (k n : ℕ) (ps : List (Proc A)) (s : State)
      → Inv s.db
      → Tasks n (view s.db) ps
      → let (qs, s') = resume_at net k ps s in Inv s'.db × Tasks n (view s'.db) qs
  unfolding resume_at
  resume_at-Tasks net k zero [] s i h = (i, h)
  resume_at-Tasks net k (suc n) [] s i h = (i, h)
  resume_at-Tasks net zero zero (p ∷ ps) s i h =
      let (i₁, q) = resume-Wp Inv view net p Q s i h.0 in (i₁, (q, h.1))
  resume_at-Tasks net zero (suc n) (p ∷ ps) s i h =
      let (i₁, q, e) = resume-Quiet Inv view net s i h.0 in
      (i₁, (q, subst (λ r. Tasks n r ps) (sym e) h.1))
  resume_at-Tasks net (suc k) zero (p ∷ ps) s i h =
      let (i₁, qs, e) = resume_at-Quiet net k ps s i h.1 in
      (i₁, (subst (Wp Inv view p Q) (sym e) h.0, qs))
  resume_at-Tasks net (suc k) (suc n) (p ∷ ps) s i h =
      let (i₁, qs) = resume_at-Tasks net k n ps s i h.1 in (i₁, (h.0, qs))

  follow-Tasks :
      (net : Net) (schedule : List ℕ) (n : ℕ) (ps : List (Proc A)) (s : State)
      → Inv s.db
      → Tasks n (view s.db) ps
      → let (qs, s') = follow net schedule ps s in Inv s'.db × Tasks n (view s'.db) qs
  unfolding follow
  follow-Tasks net [] n ps s i h = (i, h)
  follow-Tasks net (k ∷ schedule) n ps s i h =
      let (i₁, h₁) = resume_at-Tasks net k n ps s i h in
      follow-Tasks net schedule n (resume_at net k ps s).0 (resume_at net k ps s).1 i₁ h₁

  follow-Quiet :
      (net : Net) (schedule : List ℕ) (ps : List (Proc A)) (s : State)
      → Inv s.db
      → All Calm ps
      → let (qs, s') = follow net schedule ps s in Inv s'.db × (view s'.db ≡ view s.db)
  unfolding follow
  follow-Quiet net [] ps s i h = (i, refl)
  follow-Quiet net (k ∷ schedule) ps s i h =
      let (i₁, h₁, e₁) = resume_at-Quiet net k ps s i h in
      let (i₂, e₂) =
        follow-Quiet net schedule (resume_at net k ps s).0 (resume_at net k ps s).1 i₁ h₁ in
      (i₂, e₂ ∙ e₁)

  outcome-Wp : (p : Proc A) (r : R) {o : Py A} → outcome p ≡ some o → Wp Inv view p Q r → Q o r
  unfolding Wp outcome
  outcome-Wp (ret a) r {o} e h = let same : ok a ≡ o = cc in subst (λ x. Q x r) same h
  outcome-Wp (throw x) r {o} e h = let same : raised x ≡ o = cc in subst (λ y. Q y r) same h
  outcome-Wp (await c k) r e h = cc
  outcome-Wp (query k) r e h = cc
  outcome-Wp (update f p) r e h = cc

  -- the outcome of the task, once all are done
  outcomes-Tasks :
      (n : ℕ) (ps : List (Proc A)) (r : R) {os : List (Py A)}
      → outcomes ps ≡ some os
      → Tasks n r ps
      → (o : Py A) × (get_elem? os n ≡ some o) × Q o r
  unfolding outcomes
  outcomes-Tasks zero [] r e h = elim h [ ]
  outcomes-Tasks (suc n) [] r e h = elim h [ ]
  outcomes-Tasks zero (p ∷ ps) r e h =
      let (o, rest, e₁, _, same) = cons_outcome-eq-some (outcome p) (outcomes ps) e in
      (o, ap (λ xs. get_elem? xs 0) (sym same), outcome-Wp p r e₁ h.0)
  outcomes-Tasks (suc n) (p ∷ ps) r e h =
      let (_, rest, _, e₂, same) = cons_outcome-eq-some (outcome p) (outcomes ps) e in
      let (o, found, q) = outcomes-Tasks n ps r e₂ h.1 in
      (o, ap (λ xs. get_elem? xs (suc n)) (sym same) ∙ found, q)

  -- Whatever the schedule, quiet tasks leave the view alone.
  pub gather-Quiet :
      (net : Net) (schedule : List ℕ) (ps : List (Proc A)) (s : State) {os : List (Py A)}
      {s' : State}
      → Inv s.db
      → All Calm ps
      → gather net schedule ps s ≡ some (os, s')
      → Inv s'.db × (view s'.db ≡ view s.db)
  unfolding gather finished
  gather-Quiet net schedule ps s {os} {s'} i h e =
      let s₀ : State = record s { db = (start_all ps s.db).1 } in
      let qs = (start_all ps s.db).0 in
      let (i₀, h₀, e₀) = start_all-Quiet ps s.db i h in
      let (i₁, e₁) = follow-Quiet net schedule qs s₀ i₀ h₀ in
      let (done, same) = finished-eq-some (outcomes (follow net schedule qs s₀).0) _ e in
      (subst (λ x. Inv x.db) same i₁, ap (λ x. view x.db) (sym same) ∙ (e₁ ∙ e₀))

  -- Whatever the schedule, a task beside quiet ones ends as it would alone.
  pub gather-Tasks :
      (net : Net) (schedule : List ℕ) (n : ℕ) (ps : List (Proc A)) (s : State) {os : List (Py A)}
      {s' : State}
      → Inv s.db
      → Tasks n (view s.db) ps
      → gather net schedule ps s ≡ some (os, s')
      → Inv s'.db × ((o : Py A) × (get_elem? os n ≡ some o) × Q o (view s'.db))
  unfolding gather finished
  gather-Tasks net schedule n ps s {os} {s'} i h e =
      let s₀ : State = record s { db = (start_all ps s.db).1 } in
      let qs = (start_all ps s.db).0 in
      let (i₀, h₀) = start_all-Tasks n ps s.db i h in
      let (i₁, h₁) = follow-Tasks net schedule n qs s₀ i₀ h₀ in
      let (done, same) = finished-eq-some (outcomes (follow net schedule qs s₀).0) _ e in
      let (o, found, q) = outcomes-Tasks n (follow net schedule qs s₀).0 _ done h₁ in
      (subst (λ x. Inv x.db) same i₁, (o, found, subst (λ x. Q o (view x.db)) same q))
