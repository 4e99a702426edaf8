-- ===== src/Tests.antt =====
-- Concrete inputs: the theorems at them, and runs of the definitions that can be followed in the
-- source.
mod Data
mod Store
mod Lines
mod Requests
mod Schedule
mod Threads
mod Shared
mod Client
mod Queries
mod Accepts
mod Startup
