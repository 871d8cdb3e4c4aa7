-- ===== src/Provisioning.antt =====
-- demos/fleet_provisioning/fleet_provisioning_keys_cert: the CBOR payloads, the responses and the flow of
-- fleet provisioning.
pub mod Serializer
pub mod Print
pub mod Response
pub mod Stage
pub mod Flow
pub mod Token
pub mod Tests
pub mod FlowTests
