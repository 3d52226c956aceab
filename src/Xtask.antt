-- ===== src/Xtask.antt =====
-- xtask/src/main.rs: the host tool.
pub mod Uf2
pub mod Elf
pub mod Plan
pub mod Ota
pub mod Drive
