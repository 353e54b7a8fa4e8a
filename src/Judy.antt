-- ===== src/Judy.antt =====
-- The interfaces of the Judy arrays, and a concrete implementation of each.
pub mod Laws
pub mod Model
pub mod Sets
pub use Laws.*
