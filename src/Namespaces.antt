-- ===== src/Namespaces.antt =====
-- Namespaces and their metadata in pulp: galaxy_ng/app/models/namespace.py, and the handlers of
-- namespaces in galaxy_ng/app/signals/handlers.py.
pub mod Model
pub mod Metadata
mod Examples
