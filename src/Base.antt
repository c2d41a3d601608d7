-- ===== src/Base.antt =====
-- The names that the other modules share: the libraries', passed on, and those of the children.
mod Tests
mod Lists
mod Text
mod Maps
mod Counts
pub use Tests.*
pub use Lists.*
unfoldable pub use Text.{bytes_dec, split, is_listed}
pub use Text.{Bytes, codes}
unfoldable pub use Maps.{insert, delete}
pub use Maps.{
  Map, entries, get_list, lookup-insert, lookup-delete, get_list-insert, get_list-delete, maps,
}
unfoldable pub use Counts.{occurrences}
pub use Counts.{
  move_last, swap_remove, init, last_or, get_elem?-occurrences, occurrences-swap_remove,
  occurrences-append, occurrences-set,
}
pub use Prim.Native.Nat.{ℕ, zero, suc, ◌+◌, ◌-◌, ◌*◌, ◌/◌, ◌%◌, ◌^◌, ◌≤◌, ◌<◌}
pub use mathlib.Core.Path.{◌≡◌, refl, sym, ap, subst, ◌∙◌}
pub use mathlib.Core.Logic.{◌≢◌, ◌↔◌, ◌⊎◌, inl, inr, ite, if_pos, if_neg}
pub use mathlib.Core.Bool.{Bool, true, false, not, ◌&&◌, ◌||◌}
pub use mathlib.Core.Option.{Option, none, some}
pub use mathlib.Core.List.{List, [], ◌∷◌, ◌++◌, map}
unfoldable pub use mathlib.Core.List.{lookup}
pub use native.Mathlib.Omega.{arith}
unfoldable pub use native.Mathlib.Decide.{dec_lt, ℕ_discrete}
