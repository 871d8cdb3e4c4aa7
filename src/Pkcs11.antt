-- ===== src/Pkcs11.antt =====
-- demos/fleet_provisioning/fleet_provisioning_keys_cert/pkcs11_operations.c: keys and certificates in a
-- PKCS #11 token.
pub mod Module
pub mod Files
pub mod Objects
pub mod Keys
pub mod Certificates
pub mod Credentials
pub mod Tests
