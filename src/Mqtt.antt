-- ===== src/Mqtt.antt =====
-- demos/fleet_provisioning/fleet_provisioning_keys_cert/mqtt_operations.c: one MQTT session over
-- coreMQTT, with the publishes that wait for an acknowledgement.
pub mod Library
pub mod Outgoing
pub mod Callback
pub mod Wait
pub mod Topics
pub mod Session
pub mod Tests
