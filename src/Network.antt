-- ===== src/Network.antt =====
-- mvp/internal/network/bridge_linux.go
pub mod Types
pub mod Names
pub mod Bridge
pub mod Publish
pub mod Setup
