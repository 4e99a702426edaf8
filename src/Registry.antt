-- ===== src/Registry.antt =====
-- server/list.c and server/list.h: the store of users and files behind the mutex. The C lists own
-- their nodes, so `messages` is the list of the nodes in order of `next`. The proofs stand in the
-- modules below.
pub mod Defs
pub mod Users
pub mod Files
pub mod Lists
pub mod Search
pub mod Refines
pub mod Mutex
pub mod History
pub mod Serve
pub mod Invariant
pub mod FileSearch
