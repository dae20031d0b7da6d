-- ===== src/QueryResult.antt =====
-- Query results and their execution (client/app/services/query-result.js).
pub mod ColumnTypes
pub mod ColumnName
pub mod Job
pub mod Execution
mod Tests
