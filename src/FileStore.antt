-- ===== src/FileStore.antt =====
-- lib/store/base: files on disk and their entries in memory. `Types` has the state, `Entries` what is
-- done to one file, `FileMap` the entries in memory, and `Ops` the calls of the store.
pub mod Types
pub mod Entries
pub mod FileMap
pub mod Ops
pub mod Persisting
pub mod Calls
pub mod Stable
pub mod Evicting
pub mod Metadata
mod Tests
pub mod Downloads
