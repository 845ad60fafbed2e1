-- ===== src/Releaseutil.antt =====
-- pkg/releaseutil: filters on releases and sorts of releases.
pub mod Filter
pub mod Sorter
pub mod Latest
