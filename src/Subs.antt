-- ===== src/Subs.antt =====
-- The broker's subscription tree, src/subs.c of mosquitto-1.4.2.
pub mod Tokens
pub mod Tree
pub mod Prune
pub mod Paths
pub mod Distinct
pub mod Removed
pub mod Search
pub mod Process
pub mod Calls
pub mod Access
pub mod Publish
pub mod Ended
pub mod Valid
pub mod Count
pub mod Retain
pub mod Hollow
pub mod Shape
pub mod Steps
pub mod Close
mod Tests
