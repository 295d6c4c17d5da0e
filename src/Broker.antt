-- ===== src/Broker.antt =====
-- The broker's message database, src/database.c of mosquitto-1.4.2.
pub mod State
pub mod Queue
pub mod Insert
pub mod Reset
pub mod Write
pub mod Timeout
pub mod Tally
pub mod Store
mod Tests
