-- ===== src/Github.antt =====
-- github_tools.py
pub mod PrUrl
pub mod Client
pub mod Factory
pub mod Calls
pub mod Answers
pub mod Cleanup
