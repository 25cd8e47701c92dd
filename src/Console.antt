-- ===== src/Console.antt =====
-- web/src/main.jsx: the administration console.
pub mod Api
pub mod Certificates
pub mod Changes
pub mod Desk
pub mod Effects
pub mod Uri
pub mod Login
pub mod Diagnostics
pub mod Overview
pub mod Credentials
pub mod Secret
pub mod Audit
pub mod Keys
pub mod Number
pub mod Screen
pub mod Maintenance
