-- ===== src/Report.antt =====
-- Private reports: the status machine, the tables that hold a report and its history, reviewer
-- decisions, the follow-up questions, and the answers to them.
pub mod Machine
pub mod Tables
pub mod Decision
pub mod FollowUp
pub mod Questions
