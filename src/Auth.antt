-- ===== src/Auth.antt =====
-- Authentication and authorization (src/vulnops/auth).
pub mod Principals
pub mod Claims
pub mod Boundary
pub mod Grants
pub mod Entry
pub mod Tests
