-- ===== src/Consensus.antt =====
-- `Consensus` of src/subnet/substrate/consensus.py: the thread of a subnet node that submits the
-- scores of an epoch when the node is its validator, and else attests the validator's scores.
pub mod Data
pub mod Chain
pub mod Attest
pub mod Activate
pub mod Run
mod Tests
