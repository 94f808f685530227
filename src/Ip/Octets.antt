-- ===== src/Ip/Octets.antt =====
-- `ipaddress`: the text of an address is read as the address.
use netdeploy.Base.{
  ℕ, zero, suc, ◌≡◌, refl, ap, ◌∙◌, ◌+◌, ◌*◌, ◌/◌, ◌%◌, ◌^◌, ◌≤◌, Bool, true, false, ◌&&◌, [], ◌∷◌,
  Option, none, some, ◌==◌, ==_iff, arith,
}
use Prim.Native.Nat.{◌<◌}
use netdeploy.Text.{
  Text, split_on, decimal, lacks, lacks-append, split_on-lacks, split_on-lacks-append,
}
use netdeploy.Ip.{ip_text, ip_of_text, parse_octet, octets_value, prefix_of_text}

-- A test that all numbers below a bound pass.
all_below : ℕ → (ℕ → Bool) → Bool
all_below zero p = true
all_below (suc n) p = p n && all_below n p

all_below-true : (n : ℕ) (p : ℕ → Bool) (x : ℕ) → all_below n p ≡ true → x < n → p x ≡ true
unfolding all_below
all_below-true zero p x h lt = absurd (omega arith)
all_below-true (suc n) p x h lt = ground (arith, all_below-true n p x)

reads_as : ℕ → Option ℕ → Bool
reads_as k none = false
reads_as k (some n) = n == k

reads_as-some : (k : ℕ) (o : Option ℕ) → reads_as k o ≡ true → o ≡ some k
unfolding reads_as
reads_as-some k none h = cc
reads_as-some k (some n) h = ap some ((==_iff n k).0 h)

octet_test : ℕ → Bool
octet_test k =
    reads_as k (parse_octet (decimal k)) && (lacks 46 (decimal k) && lacks 47 (decimal k))

octet_table : all_below 256 octet_test ≡ true
unfolding all_below octet_test reads_as parse_octet decimal lacks
octet_table = refl

prefix_table : all_below 33 (λ n. reads_as n (prefix_of_text (decimal n))) ≡ true
unfolding all_below reads_as prefix_of_text decimal
prefix_table = refl

pub record OctetText (k : ℕ) : Type 0 where
  pub parsed : parse_octet (decimal k) ≡ some k
  pub no_dot : lacks 46 (decimal k) ≡ true
  pub no_slash : lacks 47 (decimal k) ≡ true

pub octet-OctetText : (k : ℕ) → k < 256 → OctetText k
unfolding octet_test
octet-OctetText k h =
    let passed = all_below-true 256 octet_test k octet_table h in
    record {
      parsed = reads_as-some k _ (ground (arith, passed));
      no_dot = ground (arith, passed);
      no_slash = ground (arith, passed);
    }

pub prefix-read : (n : ℕ) → n ≤ 32 → prefix_of_text (decimal n) ≡ some n
prefix-read n h =
    reads_as-some n _ (
      all_below-true 33 (λ k. reads_as k (prefix_of_text (decimal k))) n prefix_table (omega arith))

octets_parsed :
    (s t u v : Text) {i j k l : ℕ}
    → parse_octet s ≡ some i
    → parse_octet t ≡ some j
    → parse_octet u ≡ some k
    → parse_octet v ≡ some l
    → octets_value (s ∷ t ∷ u ∷ v ∷ []) ≡ some (((i * 256 + j) * 256 + k) * 256 + l)
unfolding octets_value
octets_parsed s t u v p q r z = rw (p, q, r, z) refl

module _ (a : ℕ) (fits : a < 2 ^ 32) where
  first : OctetText (a / 2 ^ 24)
  first = octet-OctetText (a / 2 ^ 24) (omega arith)

  second : OctetText (a / 2 ^ 16 % 256)
  second = octet-OctetText (a / 2 ^ 16 % 256) (omega arith)

  third_octet : OctetText (a / 2 ^ 8 % 256)
  third_octet = octet-OctetText (a / 2 ^ 8 % 256) (omega arith)

  fourth : OctetText (a % 256)
  fourth = octet-OctetText (a % 256) (omega arith)

  ip_parts :
      split_on 46 (ip_text a)
      ≡ decimal (a / 2 ^ 24)
        ∷ decimal (a / 2 ^ 16 % 256)
        ∷ decimal (a / 2 ^ 8 % 256)
        ∷ decimal (a % 256)
        ∷ []
  unfolding ip_text
  ip_parts =
      split_on-lacks-append 46 (decimal (a / 2 ^ 24)) _ first.no_dot
      ∙ ap (λ ts. decimal (a / 2 ^ 24) ∷ ts)
          (split_on-lacks-append 46 (decimal (a / 2 ^ 16 % 256)) _ second.no_dot
            ∙ ap (λ ts. decimal (a / 2 ^ 16 % 256) ∷ ts)
                (split_on-lacks-append 46 (decimal (a / 2 ^ 8 % 256)) _ third_octet.no_dot
                  ∙ ap (λ ts. decimal (a / 2 ^ 8 % 256) ∷ ts)
                      (split_on-lacks 46 (decimal (a % 256)) fourth.no_dot)))

  pub ip_text-lacks_slash : lacks 47 (ip_text a) ≡ true
  unfolding ip_text lacks
  ip_text-lacks_slash = lacks-append 47 (decimal (a / 2 ^ 24)) _ first.no_slash (
      lacks-append 47 (decimal (a / 2 ^ 16 % 256)) _ second.no_slash
        (lacks-append 47 (decimal (a / 2 ^ 8 % 256)) _ third_octet.no_slash fourth.no_slash))

  -- The text of an address is read as the address.
  pub ip_of_text-ip_text : ip_of_text (ip_text a) ≡ some a
  unfolding ip_of_text
  ip_of_text-ip_text =
      ap octets_value ip_parts
      ∙ (octets_parsed (decimal (a / 2 ^ 24)) (decimal (a / 2 ^ 16 % 256))
            (decimal (a / 2 ^ 8 % 256)) (decimal (a % 256)) first.parsed second.parsed
            third_octet.parsed fourth.parsed
          ∙ ap some (omega (arith, fits)))
