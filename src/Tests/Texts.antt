-- ===== src/Tests/Texts.antt =====
-- Runs of the text, address and value operations on concrete inputs.
use netdeploy.Base.{◌≡◌, refl, [], ◌∷◌, none, some, true, negsuc}
use netdeploy.Text.{
  codes, split_on, splitlines, strip, int_of_text, decimal, contains_text, replace_first,
}
use netdeploy.Value.{null, int, str, arr, obj, nil, cons, end, field, py_str}
use netdeploy.Ip.{ipv4_address, ipv4_network}

split_dots : split_on b'.' (codes "a..b") ≡ codes "a" ∷ [] ∷ codes "b" ∷ []
unfolding split_on
split_dots = refl

split_lines : splitlines (codes "a\n\nb\n") ≡ codes "a" ∷ [] ∷ codes "b" ∷ []
unfolding splitlines
split_lines = refl

strips : strip (codes "  a b ") ≡ codes "a b"
unfolding strip
strips = refl

ints : int_of_text (codes " -1_0 ") ≡ some (negsuc 9)
unfolding int_of_text
ints = refl

ints_bad : int_of_text (codes "1__0") ≡ none
unfolding int_of_text
ints_bad = refl

decimals : decimal 4294967295 ≡ codes "4294967295"
unfolding decimal
decimals = refl

contains : contains_text (codes "bc") (codes "abcd") ≡ true
unfolding contains_text
contains = refl

replaces :
    replace_first (codes "set ") (codes "delete ") (codes "set a set b") ≡ codes "delete a set b"
unfolding replace_first
replaces = refl

renders :
    py_str
      (arr (cons (str (codes "a'b")) (cons (int (negsuc 0)) (cons (obj (field "k" null end)) nil))))
    ≡ codes "[\"a'b\", -1, {'k': None}]"
unfolding py_str
renders = refl

address : ipv4_address (str (codes "10.0.0.1")) ≡ some 167772161
unfolding ipv4_address
address = refl

leading_zeros : ipv4_address (str (codes "10.0.0.01")) ≡ none
unfolding ipv4_address
leading_zeros = refl

host_bits_cleared :
    ipv4_network (str (codes "192.168.1.77/255.255.255.0"))
    ≡ some (record { address = 3232235776; prefix_length = 24 })
unfolding ipv4_network
host_bits_cleared = refl
