-- ===== src/Galois.antt =====
-- crates/symmetrix-galois/src/lib.rs.
pub mod Element
pub mod Inverse
pub mod Pow
pub mod Matrix
pub mod Crt
mod Tests
