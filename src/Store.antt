-- ===== src/Store.antt =====
-- The database (prisma/schema.prisma) as a record of tables, and a service call as a computation
-- over it: src/prisma/prisma.service.ts gives every service the one client.
mod Status
mod Rows
mod Errors
mod Monad
pub mod Invariants
pub use Status.*
pub use Rows.*
pub use Errors.*
pub use Monad.*
