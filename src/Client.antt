-- ===== src/Client.antt =====
-- The client of a swarm: src/subnet/client.
pub mod Connection
pub mod Session
pub mod Routing
pub mod Autograd
mod Tests
