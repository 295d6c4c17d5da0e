-- ===== src/Persist.antt =====
-- The database file of src/persist.c of mosquitto-1.4.2: how the broker saves its sessions,
-- subscriptions and stored messages, and how it takes them up again.
pub mod Format
pub mod Output
pub mod Write
pub mod Backup
pub mod Input
pub mod Read
pub mod Contexts
pub mod Apply
pub mod Restore
pub mod Items
pub mod Contents
pub mod Reading
pub mod Replay
pub mod Emits
pub mod Fields
pub mod Writing
pub mod RoundTrip
pub mod Failure
pub mod Consume
pub mod Ends
pub mod Stores
pub mod Counters
pub mod Filters
pub mod Saved
pub mod Tests
