-- ===== src/Packages.antt =====
-- The source trees of plugins, roles/desktop/files/quickshell/scripts/plugin_packages.py.
pub mod Store
pub mod Laws
pub mod Scoped
pub mod Install
pub mod Update
pub mod Quiet
pub mod Installed
pub mod Outcome
pub mod Merged
pub mod Updated
pub mod Copier
pub mod Clone
pub mod Copied
mod Parts
pub mod Cloned
mod Tests
