-- ===== src/Storage.antt =====
-- pkg/storage and pkg/storage/driver: labels, the in-memory driver, and the storage layer over any
-- driver.
pub mod Labels
pub mod Driver
pub mod Records
pub mod Memory
pub mod Store
pub mod Key
pub mod Encoding
pub mod ConfigMaps
pub mod Secrets
mod Tests
