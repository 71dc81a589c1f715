-- ===== src/Prelude/Order.antt =====
-- Three-way comparisons as Rust's `Ord`: numbers, texts, options, lists, lexicographic products,
-- and the stable sort with the least element at its head.
mod Sorting
mod Compare
unfoldable pub use Compare.*
unfoldable pub use Sorting.*
