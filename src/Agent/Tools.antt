-- ===== src/Agent/Tools.antt =====
-- The tools of agent.py that the LLM calls: what each does with its arguments.
pub mod Core
pub mod Edit
pub mod Generate
pub mod Docs
pub mod Laws
