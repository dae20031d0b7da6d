-- ===== src/Charts.antt =====
-- viz-lib/src/visualizations: the data that the visualizations draw.
pub mod Counter
pub mod Series
pub mod TableColumns
pub mod Stacking
pub mod Cohort
mod CohortTests
mod CounterTests
mod SeriesTests
mod TableTests
mod StackingTests
