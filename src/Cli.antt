-- ===== src/Cli.antt =====
-- mvp/cmd/myrun
pub mod Publish
pub mod Memory
pub mod Program
pub mod Main
