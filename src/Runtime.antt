-- ===== src/Runtime.antt =====
-- mvp/internal/runtime/runtime_linux.go
pub mod Config
pub mod Rootfs
pub mod Precedence
pub mod Run
pub mod Child
pub mod Sync
