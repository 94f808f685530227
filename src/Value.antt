-- ===== src/Value.antt =====
-- JSON values as the program sees them: the data in one child, their text in the other.
mod Defs
mod Render
pub use Defs.{Value, null, bool, int, str, arr, obj, Items, nil, cons, Fields, end, field}
unfoldable pub use Defs.{
  lookup, has_key, items_list, keys_list, chars_list, as_int, truthy, hashable, type_name, value_eq,
}
unfoldable pub use Render.{repr_text, repr, py_str}
