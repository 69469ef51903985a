-- ===== src/Tests.antt =====
-- A small system to run the program on, and runs of it.
pub mod Scripts
mod Options
mod Linked
mod Idle
mod Texts
mod Steps
pub mod World
pub mod Runs
pub mod Files
pub mod Commands
