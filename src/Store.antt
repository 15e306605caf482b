-- ===== src/Store.antt =====
-- The database: its tables (Schema), what a request does to the world around it (Effect), and how a
-- mutation ends with its event (Mutation).
pub mod Schema
pub mod Effect
pub mod Mutation
