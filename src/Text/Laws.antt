-- ===== src/Text/Laws.antt =====
-- Laws of the text operations: equality is decided, and a prefix that is written first is found.
use netdeploy.Base.{
  ℕ, ◌≡◌, refl, ap, ◌↔◌, true, [], ◌∷◌, ◌++◌, ◌==◌, ==_iff, Bool-cases, inl, inr, arith,
}
use netdeploy.Text.Defs.{Text, text_eq, starts_with, push_char, split_on, lacks}

pub text_eq_refl : (s : Text) → text_eq s s ≡ true
unfolding text_eq
text_eq_refl [] = refl
text_eq_refl (c ∷ s) = ground (arith, text_eq_refl s)

pub text_eq_iff : (s t : Text) → (text_eq s t ≡ true) ↔ (s ≡ t)
unfolding text_eq
text_eq_iff [] [] = (λ h. refl, λ h. refl)
text_eq_iff [] (d ∷ t) = (λ h. cc, λ h. cc)
text_eq_iff (c ∷ s) [] = (λ h. cc, λ h. cc)
text_eq_iff (c ∷ s) (d ∷ t) =
    (λ h. ground (arith, text_eq_iff s t), λ h. ground (arith, text_eq_iff s t))

pub starts_with-append : (p t : Text) → starts_with p (p ++ t) ≡ true
unfolding starts_with
starts_with-append [] t = refl
starts_with-append (c ∷ p) t = ground (arith, starts_with-append p t)

pub lacks-append :
    (sep : ℕ) (s t : Text) → lacks sep s ≡ true → lacks sep t ≡ true → lacks sep (s ++ t) ≡ true
unfolding lacks
lacks-append sep [] t h k = k
lacks-append sep (c ∷ s) t h k = elim (Bool-cases (c == sep)) [
  | inl e ↦ ground arith
  | inr e ↦ rw e (lacks-append sep s t (ground arith) k)
]

-- A text without the separator is one part.
pub split_on-lacks : (sep : ℕ) (t : Text) → lacks sep t ≡ true → split_on sep t ≡ t ∷ []
unfolding lacks split_on
split_on-lacks sep [] h = refl
split_on-lacks sep (c ∷ t) h = elim (Bool-cases (c == sep)) [
  | inl e ↦ ground arith
  | inr e ↦ rw e (ap (push_char c) (split_on-lacks sep t (ground arith)))
]

pub split_on-lacks-append :
    (sep : ℕ) (s t : Text) → lacks sep s ≡ true → split_on sep (s ++ (sep ∷ t)) ≡ s ∷ split_on sep t
unfolding lacks split_on
split_on-lacks-append sep [] t h = rw ((==_iff sep sep).1 refl) refl
split_on-lacks-append sep (c ∷ s) t h = elim (Bool-cases (c == sep)) [
  | inl e ↦ ground arith
  | inr e ↦ rw e (ap (push_char c) (split_on-lacks-append sep s t (ground arith)))
]
