-- ===== src/Service.antt =====
-- main.py: the registry of task statuses, the routes, and the task in the background. The registry
-- holds status objects that a route changes in place; here the changed one is put back. Operator is
-- what the operator does with a task.
pub mod Payload
pub mod Operator
pub mod Routes
pub mod Background
pub mod System
pub mod Wiring
pub mod Lives
pub mod Finalize
pub mod Replies
pub mod Execute
