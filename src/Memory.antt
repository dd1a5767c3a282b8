-- ===== src/Memory.antt =====
-- memory.py
pub mod Schema
pub mod Fields
pub mod Buffer
pub mod Rank
pub mod Gate
pub mod Errors
pub mod Store
pub mod Calls
pub mod Search
pub mod Bulk
pub mod Graduate
pub mod Factory
