-- ===== src/Store.antt =====
-- The data model of prisma/schema.prisma and the state that the services share.
pub mod Actions
pub mod Enums
pub mod Text
pub mod Entities
pub mod Events
pub mod World
pub mod Queue
