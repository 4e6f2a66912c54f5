-- ===== src/Persist.antt =====
-- persist/: the durable tier of an imp's memory.
pub mod Lru
pub mod Store
pub mod Backend
pub mod Beacon
