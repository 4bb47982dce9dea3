-- ===== src/Upload.antt =====
-- internal/upload: upload tokens, the registries that keep them, and the service.
pub mod Tokens
pub mod Memory
pub mod Valkey
pub mod Store
pub mod Body
pub mod Service
pub mod Claims
pub mod Complete
pub mod Initiate
