-- ===== src/Repo.antt =====
-- pkg/repo and pkg/resolver: the index of a chart repository, the list of repositories, and the
-- versions that requirements are locked to.
pub mod Semver
pub mod Index
pub mod File
pub mod Resolver
mod Tests
