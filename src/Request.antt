-- ===== src/Request.antt =====
-- server/servidor.c: a thread's work on one connection, `treat_request`, run without interference
-- from other threads, and what two threads do to each other in `Shared` and `Client`.
pub mod World
pub mod Decimal
pub mod Commands
pub mod Queries
pub mod Treat
pub mod Fields
pub mod Shared
pub mod Client
pub mod Wire
pub mod Emits
pub mod Parts
pub mod Cut
pub mod ListUsers
pub mod ListContent
