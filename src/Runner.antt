-- ===== src/Runner.antt =====
-- The ephemeral runner of one release job, image/release_runner.py.
pub mod Tag
pub mod Job
pub mod Reviewed
pub mod Queued
pub mod Select
pub mod Site
pub mod Github
pub mod Execute
pub mod Own
pub mod Listed
pub mod Cleaned
pub mod Stop
pub mod Stopped
mod Tests
