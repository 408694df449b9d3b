-- ===== src/Service/Health.antt =====
-- The store's health: saveLocked and auditLocked record a failure, page the admin once per failure
-- episode, and never lose track of a save that did not reach the disk.
pub mod Durability
pub mod Fuel
pub mod Episodes
pub mod Acknowledged
