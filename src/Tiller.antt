-- ===== src/Tiller.antt =====
-- pkg/tiller: the release server.
pub mod Server
pub mod Hooks
pub mod Names
pub mod Modules
pub mod Install
pub mod Upgrade
pub mod Update
pub mod Rollback
pub mod Uninstall
pub mod KindSorter
pub mod SortManifests
pub mod Paging
pub mod List
pub mod Reading
pub mod DryRun
mod Samples
mod Tests
