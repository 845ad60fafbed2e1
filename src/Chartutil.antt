-- ===== src/Chartutil.antt =====
-- pkg/chartutil/values.go: the values of charts.
pub mod Value
pub mod Tables
pub mod Paths
pub mod Coalesce
pub mod Render
pub mod Requirements
pub mod Tests
