-- ===== src/Packet.antt =====
-- Packets of lib/util_mosq.c, lib/net_mosq.c and lib/send_mosq.c of mosquitto-1.4.2: how they are
-- built, and how an incoming one is taken apart.
pub mod Outgoing
pub mod Incoming
pub mod Length
pub mod Fields
pub mod Publish
mod Tests
