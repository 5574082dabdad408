-- ===== src/Write.antt =====
-- src/model/write: points, write requests and the protobuf messages built from them.
pub mod Point
pub mod Request
pub mod Key
pub mod NameDict
pub mod Series
pub mod Proto
pub mod Survive
pub mod Compare
pub mod Refine
pub mod Once
pub mod Groups
pub mod Delivered
pub mod Whole
mod Tests
