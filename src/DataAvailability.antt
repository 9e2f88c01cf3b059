-- ===== src/DataAvailability.antt =====
-- internal/dataavailability: blobs that are kept on another chain, and the proofs that they are. What a
-- remote node answers is a parameter. A byte slice has no capacity beyond its length here.
pub mod Commitments
pub mod Scan
pub mod Returns
pub mod Wrap
pub mod Convert
pub mod Shape
pub mod Carries
pub mod Celestia
pub mod Shares
