-- ===== src/Startup.antt =====
-- galaxy_ng/app/dynaconf_hooks.py: the hook that completes the settings when the program starts.
mod Model
mod Auth
mod Logging
mod Paths
mod Keycloak
mod Ldap
mod Storage
mod Post
mod Classes
mod Backends
mod Connected
mod Examples
