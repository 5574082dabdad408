-- ===== src/SqlQuery.antt =====
-- src/model/sql_query: the rows of an answer and their decoding from record batches.
pub mod Messages
pub mod Arrow
pub mod Row
pub mod Response
pub mod Display
mod Tests
