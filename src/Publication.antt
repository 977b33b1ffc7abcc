-- ===== src/Publication.antt =====
-- A public update that a reviewer writes about a verified report: its sources and what is missing
-- for a publication, the tables, the drafts, and the preview that a publication confirms.
pub mod Sources
pub mod Words
pub mod Tables
pub mod Drafts
pub mod Preview
pub mod Lifecycle
mod Examples
