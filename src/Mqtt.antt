-- ===== src/Mqtt.antt =====
-- sol/src/mqtt.c and mqtt.h: the MQTT packets, and their form on the wire.
pub mod Length
pub mod Packet
pub mod Build
pub mod Unpack
pub mod Pack
