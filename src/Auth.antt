-- ===== src/Auth.antt =====
-- src/grpc/auth.rs.
pub mod Tier
pub mod Manager
pub mod Interceptor
mod Tests
