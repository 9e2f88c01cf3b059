-- ===== src/Repository.antt =====
-- internal/convenience/repository: one child for each table, over the queries of `Query`.
pub mod Query
pub mod Voucher
pub mod Notice
pub mod Report
pub mod Input
pub mod Synchronizer
