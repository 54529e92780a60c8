-- ===== src/Hypridle.antt =====
-- The hypridle configuration, roles/desktop/files/quickshell/scripts/hypridle-config.py.
mod Tests
pub mod Settings
pub mod Render
pub mod Timeline
