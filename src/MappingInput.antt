-- ===== src/MappingInput.antt =====
-- client/app/components/ParameterMappingInput.jsx: the editing of a widget's parameter mappings.
pub mod Editable
pub mod RoundTrip
pub mod Titles
pub mod Synchronized
pub mod Affected
pub mod Editor
pub mod Saved
mod Tests
