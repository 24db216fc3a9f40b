-- ===== src/Number.antt =====
-- JavaScript numbers (doubles), and the Decimal columns of prisma/schema.prisma that store them. The
-- type is any with an instance of `Number`; `Number.Fixed` is one, with eight decimal places.
pub mod Interface
pub mod Gain
pub mod Fixed
pub use Interface.*
