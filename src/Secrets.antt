-- ===== src/Secrets.antt =====
-- internal/secrets.
pub mod KeyPair
pub mod Identifier
pub mod KeyStore
pub mod Aws
pub mod Credentials
pub mod Manager
