-- ===== src/Routes/Lists.antt =====
-- api/routes/deployments.py: the list of deployments.
use netdeploy.Base.{
  ℕ, zero, suc, ◌≤◌, ◌≡◌, refl, sym, ap, ◌∙◌, ◌⊎◌, Bool, true, ◌&&◌, List, [], ◌∷◌, ◌++◌, Option,
  none, some, All, keep, length, Bool-cases, inl, inr, arith, if◌then◌else◌,
}
use mathlib.Core.Path.{subst}
use netdeploy.Text.{Text, text_eq, upper}
use netdeploy.Py.{ok}
use netdeploy.Db.{Deployment}
use netdeploy.Proc.{State, Net, run}
use netdeploy.Routes.{page, Ordering}
use netdeploy.Routes.Deployments.{status_text}
use netdeploy.Routes.Views.{list_deployments, of_status}

-- No element has a larger key than one before it.
abbrev pub Newest : {A : Type 0} → (A → ℕ) → List A → Type 0
Newest key [] = Unit
Newest key (x ∷ xs) = All (λ y. key y ≤ key x) xs × Newest key xs

-- What a database documents of `ORDER BY … DESC`: each row is there as often as before, whichever
-- rows are counted, and the keys descend.
pub record OrderingLaws (order : Ordering) : Type 1 where
  pub same_rows :
      {A : Type 0} (key : A → ℕ) (xs : List A) (test : A → Bool)
      → length (keep test (order.newest key xs)) ≡ length (keep test xs)
  pub descends : {A : Type 0} (key : A → ℕ) (xs : List A) → Newest key (order.newest key xs)

-- The first part has n elements, or fewer and nothing is left.
abbrev pub FirstPart : {A : Type 0} → ℕ → List A → List A → Type 0
FirstPart n xs rest = (length xs ≡ n) ⊎ ((length xs ≤ n) × (rest ≡ []))

module _ {A : Type 0} where
  FirstPart-suc :
      (n : ℕ) (x : A) (xs rest : List A) → FirstPart n xs rest → FirstPart (suc n) (x ∷ xs) rest
  FirstPart-suc n x xs rest h = elim h [
    | inl e ↦ inl (ap suc e)
    | inr (le, e) ↦ inr (omega (arith, le), e)
  ]

  -- The elements before a page, and those after it.
  abbrev Split : ℕ → ℕ → List A → Type 0
  Split skip limit xs =
      (before after : List A) × (xs ≡ before ++ (page skip limit xs ++ after))
      × FirstPart skip before (page skip limit xs ++ after)
      × FirstPart limit (page skip limit xs) after

  first_page-Split :
      (limit : ℕ) (xs : List A)
      → (after : List A) × (xs ≡ page 0 limit xs ++ after) × FirstPart limit (page 0 limit xs) after
  unfolding page
  first_page-Split limit [] = ([], refl, inr (omega arith, refl))
  first_page-Split zero (x ∷ xs) = (x ∷ xs, refl, inl refl)
  first_page-Split (suc n) (x ∷ xs) =
      let (after, whole, taken) = first_page-Split n xs in
      (after, ap (λ ys. x ∷ ys) whole, FirstPart-suc n x (page 0 n xs) after taken)

  page-Split : (skip limit : ℕ) (xs : List A) → Split skip limit xs
  unfolding page
  page-Split zero limit xs =
      let (after, whole, taken) = first_page-Split limit xs in ([], after, whole, inl refl, taken)
  page-Split (suc k) limit [] = ([], [], refl, inr (omega arith, refl), inr (omega arith, refl))
  page-Split (suc k) limit (x ∷ xs) =
      let (before, after, whole, skipped, taken) = page-Split k limit xs in
      (x ∷ before, after, ap (λ ys. x ∷ ys) whole, FirstPart-suc k x before _ skipped, taken)

-- The row has the status that is asked for, in any case of letters; none and an empty one ask for
-- every row.
abbrev pub has_status : Option Text → Deployment → Bool
has_status (some (c ∷ t)) d = text_eq (status_text d.status) (upper (c ∷ t))
has_status _ d = true

keep-keep :
    {A : Type 0} (p q : A → Bool) (xs : List A) → keep p (keep q xs) ≡ keep (λ x. q x && p x) xs
keep-keep p q [] = refl
keep-keep p q (x ∷ xs) = elim (Bool-cases (q x)) [
  | inl e ↦ rw e (ap (λ ys. if p x then x ∷ ys else ys) (keep-keep p q xs))
  | inr e ↦ rw e (keep-keep p q xs)
]

keep-of_status :
    (status : Option Text) (p : Deployment → Bool) (ds : List Deployment)
    → keep p (of_status status ds) ≡ keep (λ d. has_status status d && p d) ds
unfolding of_status
keep-of_status none p ds = refl
keep-of_status (some []) p ds = refl
keep-of_status (some (c ∷ t)) p ds = keep-keep p _ ds

module _ (order : Ordering) (laws : OrderingLaws order) (net : Net) where
  -- If the database orders rows as it documents, then a list of deployments shows a part of some
  -- list of exactly the rows that have the status asked for, the newest first: as many rows are
  -- left out before it as asked for, or all; then it has as many as asked for, or all that are
  -- left. The database is not changed. Nothing is said of the order of rows of the same time.
  pub list_deployments-FirstPart :
      (skip limit : ℕ) (status : Option Text) (s : State)
      → (before shown after : List Deployment) × (run net
            (list_deployments order skip limit status)
            s
          ≡ (ok shown, s))
        × ((test : Deployment → Bool)
            → length (keep test (before ++ (shown ++ after)))
              ≡ length (keep (λ d. has_status status d && test d) s.db.deployments))
        × Newest (λ d. d.created_at) (before ++ (shown ++ after))
        × FirstPart skip before (shown ++ after)
        × FirstPart limit shown after
  unfolding list_deployments run
  list_deployments-FirstPart skip limit status s =
      let key = λ (d : Deployment). d.created_at in
      let rows = order.newest key (of_status status s.db.deployments) in
      let (before, after, whole, skipped, taken) = page-Split skip limit rows in
      (
        before,
        page skip limit rows,
        after,
        refl,
        λ test.
            ap (λ xs. length (keep test xs)) (sym whole)
            ∙ (laws.same_rows key (of_status status s.db.deployments) test
                ∙ ap length (keep-of_status status test s.db.deployments)),
        subst (Newest key) whole (laws.descends key (of_status status s.db.deployments)),
        skipped,
        taken,
      )
