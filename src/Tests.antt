-- ===== src/Tests.antt =====
-- Concrete parameters, and the theorems applied to concrete inputs.
mod Concrete
mod Seccomp
mod Network
mod Files
mod Texts
mod Runs
mod Pipe
mod Pulls
mod Filter
