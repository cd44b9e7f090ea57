-- ===== src/Common.antt =====
-- What the modules share: the libraries' names, passed on, with tests, lists, bytes and results.
pub mod Tests
pub mod Lists
pub mod Outcome
pub mod Bytes
pub mod Copying
pub mod Bits
pub mod Reading
pub mod Window
pub use Prim.Native.Nat.{ℕ, zero, suc, ◌+◌, ◌-◌, ◌*◌, ◌/◌, ◌%◌, ◌^◌, ◌≤◌, ◌<◌, min, max}
pub use mathlib.Core.Path.{◌≡◌, refl, sym, ap, ap₂, subst, ◌∙◌, ◌≡⟨◌⟩◌, ◌∎}
pub use mathlib.Core.Logic.{◌≢◌, ◌↔◌, ◌⊎◌, inl, inr}
pub use mathlib.Core.Bool.{Bool, true, false, not, ◌&&◌, ◌||◌}
pub use mathlib.Core.Option.{Option, none, some}
pub use mathlib.Core.List.{List, [], ◌∷◌, ◌++◌, map, reverse, append-nil, append_assoc}
pub use native.Mathlib.Omega.{arith}
pub use Tests.{
  ltb, leb, ◌==◌, if◌then◌else◌, ltb→lt, lt→ltb, leb→le, le→leb, lt→leb_false, le→ltb_false, ==_iff,
  tests, Bool-cases, Option-cases, if_both, if_true, if_false,
}
pub use Lists.{
  length, get_elem?, set, get_or, take, drop, replicate, length-append, length-take, length-drop,
  length-replicate, length-map, take-append-drop, All, All-append, All-map,
}
pub use Outcome.{bind_ok, Result, ok, err, panic, ◌>>=◌, ◌>>◌, check, in_range}
pub use Bytes.{
  IsBytes, copy_at, slice, be16, be32, be64, byte_at, u16_at, u32_at, u64_at, le16, le32, le16_at,
  le32_at,
}
