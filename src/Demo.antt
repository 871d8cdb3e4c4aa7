-- ===== src/Demo.antt =====
-- demos/fleet_provisioning/fleet_provisioning_keys_cert/main.c: the demo, its application thread and its
-- main loop.
pub mod Handler
pub mod Main
mod Tests
