-- ===== src/Parameters.antt =====
-- client/app/services/parameters: the parameters of a query, a class for each kind of value.
pub mod Normalize
pub mod Choices
pub mod Dates
pub mod Restore
pub mod Object
pub mod Normal
pub mod Pending
pub mod Values
pub mod Ranges
pub mod Url
pub mod RoundTrip
mod Tests
