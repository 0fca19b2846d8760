-- ===== src/Auth.antt =====
-- server/src/auth.rs and the modules below server/src/auth/: logins and their protection.
pub mod BruteForce
pub mod Password
pub mod Login
pub mod Session
pub mod ClientIp
