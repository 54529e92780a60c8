-- ===== src/Plugins.antt =====
-- The user's widget plugins, roles/desktop/files/quickshell/scripts/user-plugins.py.
pub mod Ids
pub mod Options
pub mod Manifest
pub mod Sound
pub mod Scan
pub mod Drawn
pub mod Layout
pub mod Applied
pub mod Edit
pub mod Edited
pub mod Moved
pub mod Write
pub mod Commands
pub mod Clone
pub mod Restored
pub mod Widgets
pub mod Reordered
pub mod Guarded
pub mod Alone
pub mod Kin
pub mod Example
mod Tests
