-- ===== src/Text.antt =====
-- Go strings as lists of code points, and the functions of `strings`, `strconv` and `unicode` that
-- the program calls. A string is read as valid UTF-8, which is what its JSON decoder hands out.
mod Defs
pub mod Trim
pub mod Solid
pub mod Equality
pub mod Cuts
unfoldable pub use Defs.*
