-- ===== src/Swarm.antt =====
-- The swarm as a server announces it: src/subnet/data_structures.py, and what is derived from it.
pub mod Data
pub mod Spans
pub mod Modules
pub mod Blocks
pub mod Balance
mod Tests
