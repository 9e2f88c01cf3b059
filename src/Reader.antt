-- ===== src/Reader.antt =====
-- internal/reader: a page of rows as a connection, a client that walks the pages, and the queries.
pub mod Connection
pub mod Walk
pub mod Conversions
pub mod Adapter
pub mod AdapterV2
pub mod Inputs
pub mod Pages
pub mod Answers
pub mod Resolver
pub mod Schema
pub mod Coherent
pub mod Nested
pub mod Executed
