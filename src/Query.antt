-- ===== src/Query.antt =====
-- client/app/services/query.js: the parameters that a query's text names, their list, and what
-- running a query does first.
pub mod Names
pub mod Uniq
pub mod ParameterList
pub mod Listed
pub mod Preparation
pub mod Prepared
mod Tests
