-- ===== src/Migration.antt =====
-- galaxy_ng/app/migrations/0029_move_perms_to_roles.py: permissions of groups and users become roles.
mod Translators
mod Roles
mod Preserved
mod Batches
mod Examples
