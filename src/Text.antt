-- ===== src/Text.antt =====
-- Python's `str` as the list of its code points, with the methods that the program calls.
-- `upper`, `lower` and `int` are those of ASCII text, which is what devices and configs hold.
mod Laws
pub use Laws.*
mod Defs
pub use Defs.{Text, codes, rstrip_head}
unfoldable pub use Defs.{
  text_eq, starts_with, contains_text, split_on, splitlines, strip, rstrip, upper, lower, is_digit,
  all_digits, digits_value, int_of_text, decimal, decimal_ℤ, replace_first, take_text, lacks,
}
