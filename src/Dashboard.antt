-- ===== src/Dashboard.antt =====
-- client/app/services/dashboard.js and client/app/pages/dashboards/hooks/useDashboard.js: the filters and
-- the parameters of a dashboard, collected from its widgets, and the widgets that they affect.
pub mod Filters
pub mod Filtered
pub mod Globals
pub mod Linked
mod Tests
