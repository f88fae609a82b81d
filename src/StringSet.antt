-- ===== src/StringSet.antt =====
-- The string sets of service/spec.go (StringSetIndex to StringSetMerge): slices of names, such as
-- the network types that support a method. `-1` of the source is `none`.
mod Laws
mod Defs
pub use Laws.*
unfoldable pub use Defs.{index, contains, add, remove, merge, IsDistinct}
