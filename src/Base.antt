-- ===== src/Base.antt =====
-- Names that the other modules share: those of the libraries, passed on, and those of the children.
mod Tests
mod Lists
mod Distinct
mod ByteStrings
mod Words
mod Sort
pub use Tests.*
pub use Lists.*
pub use Distinct.*
pub use Words.*
unfoldable pub use ByteStrings.{be_bytes, of_bytes}
pub use ByteStrings.{
  Bytes, same_bytes, starts_with, same_bytes_refl, same_bytes-eq, length-be_bytes,
  of_bytes-be_bytes, same_bytes-be_bytes,
}
unfoldable pub use Sort.{sort_by}
pub use Sort.{
  any-sort_by, sort_by-perm, sum_by-sort_by, length-sort_by, All-sort_by, All-sort_by_inv,
  IsAscending, sort_by-IsAscending,
}
pub use Prim.Native.Nat.{ℕ, zero, suc, ◌+◌, ◌-◌, ◌*◌, ◌/◌, ◌%◌, ◌^◌, ◌≤◌, ◌<◌, min, max}
pub use mathlib.Core.Path.{◌≡◌, refl, sym, ap, ◌∙◌}
pub use mathlib.Core.Logic.{◌≢◌, ◌↔◌, ◌⊎◌, inl, inr}
pub use mathlib.Core.Bool.{Bool, true, false, not, ◌&&◌, ◌||◌}
pub use mathlib.Core.Option.{Option, none, some}
pub use mathlib.Core.List.{List, [], ◌∷◌, ◌++◌, map}
pub use native.Mathlib.Omega.{arith}
