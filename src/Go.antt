-- ===== src/Go.antt =====
-- The parts of the Go language and its standard library that the program uses: `error` values with
-- their chains, the pair (value, error), `%d`, and, each by its name, `strings` and `strconv`.
mod Error
mod Format
pub mod Strings
pub mod Strconv
unfoldable pub use Error.*
unfoldable pub use Format.*
