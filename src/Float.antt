-- ===== src/Float.antt =====
-- Python's `float`, as a parameter: the comparisons and operations that the source uses, with the
-- comparison laws of IEEE 754. NaN is the value that is not `<=` itself.
mod Defs
mod Laws
pub mod Fixed
pub mod Unit
pub mod Rounding
pub use Defs.*
pub use Laws.*
