-- ===== src/Tests/Orderings.antt =====
-- An order of rows that a database may choose: insertion, so that rows of the same time stay in the
-- order of the table.
use netdeploy.Base.{
  ℕ, ◌≤◌, ◌≡◌, refl, ◌∙◌, Bool, true, false, List, [], ◌∷◌, All, All-map, keep, length, ltb,
  Bool-cases, inl, inr, arith, if◌then◌else◌,
}
use netdeploy.Routes.{Ordering}
use netdeploy.Routes.Lists.{Newest, OrderingLaws}

module _ {A : Type 0} (key : A → ℕ) where
  insert_newest : A → List A → List A
  insert_newest a [] = a ∷ []
  insert_newest a (b ∷ bs) =
      let rest = insert_newest a bs in if ltb (key a) (key b) then b ∷ rest else a ∷ b ∷ bs

  unfoldable pub newest_first : List A → List A
  unfolding insert_newest
  newest_first [] = []
  newest_first (a ∷ rest) = insert_newest a (newest_first rest)

  insert_oldest : A → List A → List A
  insert_oldest a [] = a ∷ []
  insert_oldest a (b ∷ bs) =
      let rest = insert_oldest a bs in if ltb (key b) (key a) then b ∷ rest else a ∷ b ∷ bs

  unfoldable pub oldest_first : List A → List A
  unfolding insert_oldest
  oldest_first [] = []
  oldest_first (a ∷ rest) = insert_oldest a (oldest_first rest)

  insert-counts :
      (test : A → Bool) (x : A) (xs : List A)
      → length (keep test (insert_newest x xs)) ≡ length (keep test (x ∷ xs))
  unfolding insert_newest
  insert-counts test x [] = refl
  insert-counts test x (y ∷ ys) = elim (Bool-cases (ltb (key x) (key y))) [
    | inl e ↦ rw e (swapped (test x) (test y) _ (insert-counts test x ys))
    | inr e ↦ rw e refl
  ]
    where
      swapped :
          (a b : Bool) (zs : List A)
          → length zs ≡ length (if a then x ∷ keep test ys else keep test ys)
          → length (if b then y ∷ zs else zs)
            ≡ length (
                if a
                then x ∷ (if b then y ∷ keep test ys else keep test ys)
                else (if b then y ∷ keep test ys else keep test ys))
      swapped true true zs h = omega (arith, h)
      swapped true false zs h = h
      swapped false true zs h = omega (arith, h)
      swapped false false zs h = h

  newest_first-counts :
      (test : A → Bool) (xs : List A) → length (keep test (newest_first xs)) ≡ length (keep test xs)
  unfolding newest_first
  newest_first-counts test [] = refl
  newest_first-counts test (x ∷ xs) =
      insert-counts test x (newest_first xs) ∙ longer (test x) _ _ (newest_first-counts test xs)
    where
      longer :
          (a : Bool) (ys zs : List A)
          → length ys ≡ length zs
          → length (if a then x ∷ ys else ys) ≡ length (if a then x ∷ zs else zs)
      longer true ys zs h = omega (arith, h)
      longer false ys zs h = h

  All-insert :
      (b : ℕ) (x : A) (xs : List A)
      → key x ≤ b
      → All (λ y. key y ≤ b) xs
      → All (λ y. key y ≤ b) (insert_newest x xs)
  unfolding insert_newest
  All-insert b x [] le h = (le, tt)
  All-insert b x (y ∷ ys) le h = elim (Bool-cases (ltb (key x) (key y))) [
    | inl e ↦ rw e (h.0, All-insert b x ys le h.1)
    | inr e ↦ rw e (le, h)
  ]

  insert-Newest : (x : A) (xs : List A) → Newest key xs → Newest key (insert_newest x xs)
  unfolding insert_newest
  insert-Newest x [] h = (tt, tt)
  insert-Newest x (y ∷ ys) h = elim (Bool-cases (ltb (key x) (key y))) [
    | inl e ↦ rw e (All-insert (key y) x ys (ground (arith, e)) h.0, insert-Newest x ys h.1)
    | inr e ↦
        let le : key y ≤ key x = ground (arith, e) in
        rw e ((le, All-map ys (λ z k. omega (arith, k, le)) h.0), h)
  ]

  newest_first-Newest : (xs : List A) → Newest key (newest_first xs)
  unfolding newest_first
  newest_first-Newest [] = tt
  newest_first-Newest (x ∷ xs) = insert-Newest x (newest_first xs) (newest_first-Newest xs)

abbrev pub by_insertion : Ordering
by_insertion = record { newest = newest_first; oldest = oldest_first }

pub by_insertion-OrderingLaws : OrderingLaws by_insertion
by_insertion-OrderingLaws = record {
  same_rows = λ key xs test. newest_first-counts key test xs;
  descends = newest_first-Newest;
}
