-- ===== src/Hostname.antt =====
-- The host of a request: `alter_hostname_settings` of galaxy_ng/app/dynaconf_hooks.py.
pub mod Split
pub mod Hook
pub mod Forwarded
pub mod RoundTrip
mod Examples
