-- ===== src/Examples.antt =====
-- Tests of the definitions, and each result at a concrete input.
mod Fixtures
mod Joining
mod Coordination
mod Letters
mod Lobby
mod Subscriber
mod Persistence
mod Queries
mod Sockets
mod Polling
