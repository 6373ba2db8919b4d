-- ===== src/Image.antt =====
-- mvp/internal/image
pub mod Reference
pub mod Layers
pub mod Store
pub mod Registry
pub mod Extract
pub mod Pull
