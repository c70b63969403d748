-- ===== src/Store.antt =====
-- store.go: what the SDK keeps of the project's configuration, and how it is synced.
pub mod State
pub mod Specs
pub mod IdLists
pub mod Sync
pub mod Markers
