-- ===== src/Base.antt =====
-- The names that every other module uses: the libraries' and those of four children
-- (Boolean tests, lists measured by native numbers, signed integers, the Go int32).
mod Tests
mod Lists
mod Int
mod Word
pub use Tests.*
pub use Lists.*
unfoldable pub use Int.*
unfoldable pub use Word.*
pub use Prim.Native.Nat.{ℕ, zero, suc, ◌+◌, ◌-◌, ◌*◌, ◌/◌, ◌%◌, ◌≤◌, ◌<◌}
pub use mathlib.Core.Path.{◌≡◌, refl, sym, ap, subst, fun_ext, ◌∙◌}
pub use mathlib.Core.Logic.{◌≢◌, ◌↔◌, ◌⊎◌, inl, inr}
pub use mathlib.Core.Bool.{Bool, true, false, ◌&&◌, ◌||◌, not}
pub use mathlib.Core.Option.{Option, none, some}
pub use mathlib.Core.List.{List, [], ◌∷◌, ◌++◌, map, append-nil, append_assoc}
pub use native.Mathlib.Omega.{arith}
