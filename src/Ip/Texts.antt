-- ===== src/Ip/Texts.antt =====
-- `ipaddress`: the text of a network is read as the network.
use netdeploy.Base.{
  ℕ, ◌≡◌, refl, ap, ◌∙◌, ◌+◌, ◌-◌, ◌*◌, ◌/◌, ◌%◌, ◌^◌, ◌≤◌, List, [], ◌∷◌, ◌++◌, Option, none, some,
  arith,
}
use Prim.Native.Nat.{◌<◌}
use mathlib.Core.Path.{subst}
use native.Mathlib.Nat.{mul-mod_right, div-add-mod}
use netdeploy.Text.{Text, split_on, decimal, split_on-lacks, split_on-lacks-append}
use netdeploy.Value.{str}
use netdeploy.Ip.{
  Network, ip_text, ip_of_text, ipv4_network, parse_octet, octets_value, prefix_of_text,
  prefix_of_digits, prefix_of_ip, or_else, network, network_of_parts, ◌>>=◌,
}
use netdeploy.Ip.Octets.{octet-OctetText, prefix-read, ip_of_text-ip_text, ip_text-lacks_slash}

bind-some :
    {A B : Type 0} (m : Option A) (f : A → Option B) {b : B}
    → (m >>= f) ≡ some b
    → (a : A) × (m ≡ some a) × (f a ≡ some b)
bind-some none f h = cc
bind-some (some a) f h = (a, refl, h)

-- The number that is read is below 2 ^ 32.
parse_octet-le : (t : Text) {n : ℕ} → parse_octet t ≡ some n → n ≤ 255
unfolding parse_octet
parse_octet-le t h = ground arith

octets_value-lt : (ts : List Text) {n : ℕ} → octets_value ts ≡ some n → n < 2 ^ 32
unfolding octets_value
octets_value-lt [] h = cc
octets_value-lt (a ∷ []) h = cc
octets_value-lt (a ∷ b ∷ []) h = cc
octets_value-lt (a ∷ b ∷ c ∷ []) h = cc
octets_value-lt (a ∷ b ∷ c ∷ d ∷ e ∷ ts) h = cc
octets_value-lt (a ∷ b ∷ c ∷ d ∷ []) {n} h =
    let (i, p, h₁) = bind-some (parse_octet a) _ h in
    let (j, q, h₂) = bind-some (parse_octet b) _ h₁ in
    let (k, r, h₃) = bind-some (parse_octet c) _ h₂ in
    let (l, s, h₄) = bind-some (parse_octet d) _ h₃ in
    let i_le = parse_octet-le a p in
    let j_le = parse_octet-le b q in
    let k_le = parse_octet-le c r in
    let l_le = parse_octet-le d s in
    let same : ((i * 256 + j) * 256 + k) * 256 + l ≡ n = cc in omega arith

prefix_of_text-le : (t : Text) {k : ℕ} → prefix_of_text t ≡ some k → k ≤ 32
unfolding prefix_of_text prefix_of_digits prefix_of_ip or_else
prefix_of_text-le t {k} h = ground arith

-- What is read as a network: an address with no host bits, and a prefix length.
pub record IsNetwork (w : Network) : Type 0 where
  pub fits : w.address < 2 ^ 32
  pub short : w.prefix_length ≤ 32
  pub no_host_bits : w.address % 2 ^ (32 - w.prefix_length) ≡ 0

sub_mod : (ip m : ℕ) → (ip - ip % m) % m ≡ 0
sub_mod ip m =
    let split = div-add-mod ip m in
    let product : ip - ip % m ≡ m * (ip / m) = omega (arith, split) in
    ap (λ k. k % m) product ∙ mul-mod_right m (ip / m)

network-IsNetwork : (ip n : ℕ) → ip < 2 ^ 32 → n ≤ 32 → IsNetwork (network ip n)
unfolding network
network-IsNetwork ip n fits short = record {
  fits = omega arith;
  short = short;
  no_host_bits = sub_mod ip (2 ^ (32 - n));
}

ip_of_text-lt : (t : Text) {n : ℕ} → ip_of_text t ≡ some n → n < 2 ^ 32
unfolding ip_of_text
ip_of_text-lt t h = octets_value-lt (split_on 46 t) h

network_of_parts-IsNetwork :
    (ts : List Text) {w : Network} → network_of_parts ts ≡ some w → IsNetwork w
unfolding network_of_parts
network_of_parts-IsNetwork [] h = cc
network_of_parts-IsNetwork (a ∷ []) {w} h =
    let (ip, p, h₁) = bind-some (ip_of_text a) _ h in
    let same : network ip 32 ≡ w = cc in
    subst IsNetwork same (network-IsNetwork ip 32 (ip_of_text-lt a p) (omega arith))
network_of_parts-IsNetwork (a ∷ m ∷ []) {w} h =
    let (ip, p, h₁) = bind-some (ip_of_text a) _ h in
    let (n, q, h₂) = bind-some (prefix_of_text m) _ h₁ in
    let same : network ip n ≡ w = cc in
    subst IsNetwork same (network-IsNetwork ip n (ip_of_text-lt a p) (prefix_of_text-le m q))
network_of_parts-IsNetwork (a ∷ m ∷ z ∷ ts) h = cc

pub ipv4_network-IsNetwork : (t : Text) {w : Network} → ipv4_network (str t) ≡ some w → IsNetwork w
unfolding ipv4_network
ipv4_network-IsNetwork t h = network_of_parts-IsNetwork (split_on 47 t) h

network_parts :
    (w : Network)
    → IsNetwork w
    → split_on 47 (ip_text w.address ++ (47 ∷ decimal w.prefix_length))
      ≡ ip_text w.address ∷ decimal w.prefix_length ∷ []
network_parts w is =
    split_on-lacks-append 47 (ip_text w.address) (decimal w.prefix_length)
      (ip_text-lacks_slash w.address is.fits)
    ∙ ap (λ ts. ip_text w.address ∷ ts)
        (split_on-lacks 47 (decimal w.prefix_length)
          (octet-OctetText w.prefix_length (omega (arith, is.short))).no_slash)

network-whole : (w : Network) → IsNetwork w → network w.address w.prefix_length ≡ w
unfolding network
network-whole w is =
    ap (λ a. record w { address = a; prefix_length = w.prefix_length })
      (omega (arith, is.no_host_bits))

read_parts :
    (w : Network) (a m : Text)
    → ip_of_text a ≡ some w.address
    → prefix_of_text m ≡ some w.prefix_length
    → network_of_parts (a ∷ m ∷ []) ≡ some (network w.address w.prefix_length)
unfolding network_of_parts
read_parts w a m p q = rw (p, q) refl

-- The text of a network, its address and prefix length, is read as the network.
pub ipv4_network-text :
    (w : Network)
    → IsNetwork w
    → ipv4_network (str (ip_text w.address ++ (47 ∷ decimal w.prefix_length))) ≡ some w
unfolding ipv4_network
ipv4_network-text w is =
    ap network_of_parts (network_parts w is)
    ∙ (read_parts w (ip_text w.address) (decimal w.prefix_length)
          (ip_of_text-ip_text w.address is.fits) (prefix-read w.prefix_length is.short)
        ∙ ap some (network-whole w is))
