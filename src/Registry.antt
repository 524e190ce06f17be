-- ===== src/Registry.antt =====
-- src/registry.rs: the files of the sessions.
pub mod Disk
pub mod Metadata
pub mod Files
pub mod Sessions
pub mod Listing
pub mod Opening
pub mod Atomic
pub mod Reading
pub mod Frame
pub mod Binding
pub mod RoundTrip
mod Tests
