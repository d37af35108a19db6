-- ===== src/Publishing.antt =====
-- galaxy_ng/app/tasks/publishing.py and promotion.py: from an uploaded collection to the published ones.
mod Tasks
mod Approved
mod Examples
