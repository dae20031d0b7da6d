-- ===== src/ItemsList.antt =====
-- The list pages' data source (client/app/components/items-list/classes).
pub mod Paginator
pub mod Sorter
pub mod Source
pub mod Storage
mod Tests
