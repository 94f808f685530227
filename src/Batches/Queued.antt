-- ===== src/Batches/Queued.antt =====
-- api/deployment_helpers.py: every device of a new batch has a queued row of its own.
use netdeploy.Base.{
  ℕ, ◌+◌, ◌≤◌, String, ◌≡◌, refl, ◌∙◌, Bool, true, false, List, [], ◌∷◌, ◌++◌, map, none, some, All,
  All-map, map-append, any, find?, find?-append, ◌==◌, ==_iff, arith, Bool-cases, inl, inr,
}
use netdeploy.Db.{Db, Deployment, queued, find_in_batch}
use netdeploy.Db.Rows.{Key, key, keys, owner, owner-cons, in_batch, Distinct}
use netdeploy.Proc.{State, Net, run}
use netdeploy.Snapshots.{Env}
use netdeploy.Batches.{new_row, create_deployment_records}
use netdeploy.Batches.Created.{rows_from, create-with_rows}

-- The ids that are drawn from the n-th on differ from each other and from those of the rows.
pub record Fresh (env : Env) (n : ℕ) (ks : List Key) : Type 0 where
  pub differ : (i j : ℕ) → env.fresh i ≡ env.fresh j → i ≡ j
  pub unused : (i : ℕ) → n ≤ i → owner (env.fresh i) ks ≡ none

-- a queued row of the device in the batch
abbrev pub Queued : ℕ → Db → ℕ → Type 0
Queued b db dev =
    (x : Deployment) × (find_in_batch b dev db ≡ some x)
    × (x.status ≡ queued)
    × (x.error_message ≡ none)

listed : ℕ → List ℕ → Bool
listed dev = any (λ i. i == dev)

all_listed : (ids : List ℕ) → All (λ dev. listed dev ids ≡ true) ids
unfolding listed
all_listed [] = tt
all_listed (id ∷ ids) = (ground arith, All-map ids (λ dev h. rw h (ground arith)) (all_listed ids))

too_far : (n : ℕ) → n + 1 ≤ n → ⊥
too_far n h = omega (arith, h)

module _ (env : Env) (b : ℕ) (version strategy : String) where
  undrawn :
      (x : ℕ) (ids : List ℕ) (n c : ℕ)
      → ((i : ℕ) → n ≤ i → (env.fresh i == x) ≡ false)
      → owner x (map key (rows_from env b version strategy ids n c)) ≡ none
  unfolding new_row
  undrawn x [] n c h = refl
  undrawn x (id ∷ ids) n c h =
      rw (h n (omega arith)) (undrawn x ids (n + 1) (c + 1) (λ i le. h i (omega (arith, le))))

  rows_from-Distinct :
      (ids : List ℕ) (n c : ℕ)
      → ((i j : ℕ) → env.fresh i ≡ env.fresh j → i ≡ j)
      → Distinct (map key (rows_from env b version strategy ids n c))
  unfolding new_row
  rows_from-Distinct [] n c differ = tt
  rows_from-Distinct (id ∷ ids) n c differ = (
    undrawn (env.fresh n) ids (n + 1) (c + 1) λ i le.
        elim (Bool-cases (env.fresh i == env.fresh n)) [
          | inl same ↦
              let e = differ i n ((==_iff (env.fresh i) (env.fresh n)).0 same) in
              elim (too_far n (omega (arith, e, le))) [ ]
          | inr other ↦ other
        ],
    rows_from-Distinct ids (n + 1) (c + 1) differ,
  )

  appended-Distinct :
      (ks : List Key) (ids : List ℕ) (n c : ℕ)
      → Fresh env n ks
      → Distinct ks
      → Distinct (ks ++ map key (rows_from env b version strategy ids n c))
  appended-Distinct [] ids n c f u = rows_from-Distinct ids n c f.differ
  appended-Distinct (k ∷ ks) ids n c f u = (
    find?-append (λ (l : Key). l.0 == k.0) ks (map key (rows_from env b version strategy ids n c))
          u.0
        ∙ undrawn k.0 ids n c (λ i le. (owner-cons (env.fresh i) k ks (f.unused i le)).0),
    appended-Distinct ks ids n c
        (record {
          differ = f.differ;
          unused = λ i le. (owner-cons (env.fresh i) k ks (f.unused i le)).1;
        })
        u.1,
  )

  listed_row :
      (dev : ℕ) (ids : List ℕ) (n c : ℕ)
      → listed dev ids ≡ true
      → (x : Deployment) × (find?
            (λ d. in_batch b dev (key d))
            (rows_from env b version strategy ids n c)
          ≡ some x)
        × (x.status ≡ queued)
        × (x.error_message ≡ none)
  unfolding listed new_row
  listed_row dev [] n c h = cc
  listed_row dev (id ∷ ids) n c h = elim (Bool-cases (id == dev)) [
    | inl e ↦ (
      new_row b version strategy id (env.fresh n) (env.now c),
      rw ((==_iff b b).1 refl) (rw e refl),
      refl,
      refl,
    )
    | inr e ↦
        let (x, found, st, err) = listed_row dev ids (n + 1) (c + 1) cc in
        (x, rw ((==_iff b b).1 refl) (rw e found), st, err)
  ]

  -- If ids are drawn that no row has, and the batch is new, then after the creation of a batch the
  -- ids of the rows are still distinct, and every device has a queued row in the batch.
  pub create-Queued :
      (net : Net) (ids : List ℕ) (s : State)
      → Distinct (keys s.db)
      → Fresh env s.db.ids_drawn (keys s.db)
      → ((dev : ℕ) → find_in_batch b dev s.db ≡ none)
      → let (o, s') = run net (create_deployment_records env ids b version strategy) s in
        Distinct (keys s'.db) × All (Queued b s'.db) ids
  unfolding find_in_batch
  create-Queued net ids s u f new = rw (create-with_rows env b version strategy net ids s) (
    rw
        (map-append key s.db.deployments
          (rows_from env b version strategy ids s.db.ids_drawn s.db.clock_reads))
        (appended-Distinct (keys s.db) ids s.db.ids_drawn s.db.clock_reads f u),
    All-map ids
        (λ dev h.
          let (x, found, st, err) = listed_row dev ids s.db.ids_drawn s.db.clock_reads h in
          (
            x,
            find?-append (λ (d : Deployment). in_batch b dev (key d)) s.db.deployments
                  (rows_from env b version strategy ids s.db.ids_drawn s.db.clock_reads) (new dev)
                ∙ found,
            st,
            err,
          ))
        (all_listed ids),
  )
