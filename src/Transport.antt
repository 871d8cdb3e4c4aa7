-- ===== src/Transport.antt =====
-- platform/posix/transport/src/mbedtls_pkcs11_posix.c: TLS connections by mbedTLS, whose client key and
-- certificate are in a PKCS #11 token.
pub mod Library
pub mod Keys
pub mod Configure
pub mod Connect
pub mod Io
pub mod Broker
mod Tests
