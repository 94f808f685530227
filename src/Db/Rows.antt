-- ===== src/Db/Rows.antt =====
-- The keys of the deployment rows, and what an assignment to one row does to the others.
use netdeploy.Base.{
  ℕ, ◌≡◌, refl, ap, ◌∙◌, Bool, false, ◌&&◌, List, [], ◌∷◌, map, Option, none, some, ◌==◌, find?,
  find?-cons, if◌then◌else◌, arith, Bool-cases, inl, inr, ==_iff,
}
use mathlib.Core.Option
use netdeploy.Db.{Db, Deployment, modify_first}

-- What no assignment changes: a row's id, batch and device.
abbrev pub Key : Type 0
Key = ℕ × ℕ × ℕ

abbrev pub key : Deployment → Key
key d = (d.id, d.batch_id, d.device_id)

abbrev pub keys : Db → List Key
keys db = map key db.deployments

abbrev pub owner : ℕ → List Key → Option Key
owner i = find? (λ k. k.0 == i)

abbrev pub in_batch : ℕ → ℕ → Key → Bool
in_batch b dev k = (k.1 == b) && (k.2 == dev)

-- the id of a device's row within a batch
abbrev pub row_id : ℕ → ℕ → List Key → Option Key
row_id b dev = find? (in_batch b dev)

-- No id is listed twice.
abbrev pub Distinct : List Key → Type 0
Distinct [] = Unit
Distinct (k ∷ ks) = (owner k.0 ks ≡ none) × Distinct ks

-- No row has the id, neither the first nor a later one.
pub owner-cons :
    (i : ℕ) (k : Key) (ks : List Key)
    → owner i (k ∷ ks) ≡ none
    → ((i == k.0) ≡ false) × (owner i ks ≡ none)
owner-cons i k ks h = elim (Bool-cases (k.0 == i)) [ inl e ↦ cc | inr e ↦ (ground arith, cc) ]

abbrev pub KeepsKey : (Deployment → Deployment) → Type 0
KeepsKey f = (d : Deployment) → key (f d) ≡ key d

module _ (i : ℕ) (f : Deployment → Deployment) (keeps : KeepsKey f) where
  pub map-modify_first : (ds : List Deployment) → map key (modify_first i f ds) ≡ map key ds
  unfolding modify_first
  map-modify_first [] = refl
  map-modify_first (d ∷ ds) = elim (Bool-cases (d.id == i)) [
    | inl h ↦ rw h (ap (λ k. k ∷ map key ds) (keeps d))
    | inr h ↦ rw h (ap (λ ks. key d ∷ ks) (map-modify_first ds))
  ]

pub find-map :
    (p : Key → Bool) (ds : List Deployment)
    → find? p (map key ds) ≡ Option.map key (find? (λ d. p (key d)) ds)
find-map p [] = refl
find-map p (d ∷ ds) = elim (Bool-cases (p (key d))) [ inl h ↦ rw h | inr h ↦ rw h (find-map p ds) ]

-- A row with an id that the keys do not own is not found.
unowned :
    (i : ℕ) (ds : List Deployment) → owner i (map key ds) ≡ none → find? (λ d. d.id == i) ds ≡ none
unowned i [] h = refl
unowned i (d ∷ ds) h = ground (arith, unowned i ds)

-- A row that is found behind the head has another id than the head.
id_differs :
    (p : Key → Bool) (d : Deployment) (ds : List Deployment) {x : Deployment}
    → Distinct (map key (d ∷ ds))
    → find? (λ d. d.id == x.id) ds ≡ some x
    → (d.id == x.id) ≡ false
id_differs p d ds {x} u h = elim (Bool-cases (d.id == x.id)) [
  | inl same ↦ cc (
    unowned d.id ds u.0,
    ap (λ i. find? (λ (e : Deployment). e.id == i) ds) ((==_iff d.id x.id).0 same),
    h,
  )
  | inr other ↦ other
]

-- The row that is found in a batch is the one that its id finds.
pub found_by_id :
    (p : Key → Bool) (ds : List Deployment) {x : Deployment}
    → Distinct (map key ds)
    → find? (λ d. p (key d)) ds ≡ some x
    → find? (λ d. d.id == x.id) ds ≡ some x
found_by_id p [] u h = cc
found_by_id p (d ∷ ds) {x} u h = elim (find?-cons (λ d. p (key d)) d ds h) [
  | inl (e, same) ↦ rw (← same) (rw ((==_iff d.id d.id).1 refl))
  | inr (e, later) ↦ let found = found_by_id p ds u.1 later in rw (id_differs p d ds u found) found
]

-- An assignment to the row that is found changes what is found there.
pub found_after_modify :
    (p : Key → Bool) (f : Deployment → Deployment) (ds : List Deployment) {x : Deployment}
    → KeepsKey f
    → Distinct (map key ds)
    → find? (λ d. p (key d)) ds ≡ some x
    → find? (λ d. p (key d)) (modify_first x.id f ds) ≡ some (f x)
unfolding modify_first
found_after_modify p f [] keeps u h = cc
found_after_modify p f (d ∷ ds) {x} keeps u h = elim (find?-cons (λ d. p (key d)) d ds h) [
  | inl (e, same) ↦ rw (← same) (rw ((==_iff d.id d.id).1 refl) (rw (ap p (keeps d) ∙ e)))
  | inr (e, later) ↦
      rw (id_differs p d ds u (found_by_id p ds u.1 later))
        (rw e (found_after_modify p f ds keeps u.1 later))
]

-- An assignment to a row that fails the test changes nothing that is found.
pub found_other :
    (p : Key → Bool) (i : ℕ) (f : Deployment → Deployment) (ds : List Deployment)
    → KeepsKey f
    → ((k : Key) → owner i (map key ds) ≡ some k → p k ≡ false)
    → find? (λ d. p (key d)) (modify_first i f ds) ≡ find? (λ d. p (key d)) ds
unfolding modify_first
found_other p i f [] keeps other = refl
found_other p i f (d ∷ ds) keeps other = elim (Bool-cases (d.id == i)) [
  | inl e ↦ let fails = other (key d) (rw e) in rw e (rw (ap p (keeps d) ∙ fails) (rw fails))
  | inr e ↦ rw e (
      ap (λ o. if p (key d) then some d else o)
        (found_other p i f ds keeps (λ k h. other k (rw e h))))
]
