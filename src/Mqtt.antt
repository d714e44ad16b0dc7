-- ===== src/Mqtt.antt =====
-- MQTT 3.1.1 packets: source/mqtt.c and include/mx/mqtt.h.
pub mod Put
pub mod Get
pub mod Length
pub mod Frame
pub mod Packets
pub mod Publish
pub mod Connect
pub mod Values
mod Tests
