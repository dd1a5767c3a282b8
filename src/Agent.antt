-- ===== src/Agent.antt =====
-- agent.py
pub mod Session
pub mod Keeps
pub mod Rules
pub mod Skills
pub mod Tools
pub mod Context
pub mod Prepare
pub mod Loop
pub mod Resends
pub mod Evaluate
pub mod Documents
pub mod Finish
pub mod Run
pub mod Steps
pub mod Total
pub mod Writes
pub mod Lessons
pub mod Records
pub mod Graduates
