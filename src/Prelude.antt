-- ===== src/Prelude.antt =====
-- The names that the other modules share: those of the libraries, passed on, and the children's:
-- Boolean tests and conditionals, lists over the native numbers, text, hash maps and sets, and
-- 64-bit signed integers.
mod Tests
mod Lists
mod Strings
mod Maps
mod Split
mod Int
pub use Tests.*
pub use Lists.*
unfoldable pub use Strings.{
  text_eq, text_lt, contains_char, contains_text, strip_prefix, is_whitespace, trim_start, trim,
  utf8_len, byte_len,
}
pub use Strings.{
  Text, codes, text_eq_iff, text_eq_refl, text_eq-sym, append-cancel_left, strip_prefix-append,
}
unfoldable pub use Maps.{get, insert, remove, set_insert, set_remove}
pub use Maps.{
  Map, keys, contains_key, get-insert, get-insert_self, get-remove, contains_text-set_insert,
  contains_text-set_remove, map_laws,
}
pub use Int.*
unfoldable pub use Split.{
  split_once, split, splitn, split_whitespace, split_whitespace_from, digits_value, parse_u64,
  decimal_from, decimal,
}
pub use Split.{closing, split_once-append, split_once-absent, splitn-append, splitn-absent}
pub use Prim.Native.Nat.{
  ℕ, zero, suc, ◌+◌, ◌-◌, ◌*◌, ◌/◌, ◌%◌, ◌^◌, ◌≤◌, ◌<◌, max, min, compare, Ordering,
}
pub use mathlib.Core.Path.{◌≡◌, refl, sym, ap, ◌∙◌, subst}
pub use mathlib.Core.Logic.{◌≢◌, ◌↔◌, ◌⊎◌, inl, inr}
pub use mathlib.Core.Bool.{Bool, true, false, ◌&&◌, ◌||◌, not}
pub use mathlib.Core.Option.{Option, none, some}
pub use mathlib.Core.List.{List, [], ◌∷◌, ◌++◌, map}
pub use native.Mathlib.Omega.{arith}
