-- ===== src/Widget.antt =====
-- client/app/services/widget.js: a dashboard's widget, its place on the grid, the mappings of its
-- query's parameters, and its loading.
pub mod Position
pub mod Mappings
pub mod Mapped
pub mod Loading
mod Tests
