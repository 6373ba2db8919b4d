-- ===== src/Seccomp.antt =====
-- mvp/internal/seccomp
pub mod Filter
pub mod Profile
pub mod Machine
pub mod Denied
pub mod Install
