-- ===== src/Events/Joins.antt =====
-- How a device gets through its qualification, one report of the bridge after the other.
pub mod Announced
pub mod Endpoints
pub mod Described
pub mod Active
pub mod First
pub mod One
pub mod Whole
