-- ===== src/Settings.antt =====
-- Dynamic settings: galaxy_ng/app/models/config.py, galaxy_ng/app/tasks/settings_cache.py and the
-- schema of galaxy_ng/app/dynamic_settings.py.
pub mod Cache
pub mod Rows
pub mod Manager
pub mod Locks
pub mod Writes
pub mod History
pub mod Reads
pub mod Undo
pub mod Dict
pub mod Coherence
mod Examples
