-- ===== src/Security.antt =====
-- middleware/security.go: the headers of an answer, the CSRF check, the list of allowed addresses
-- and the protection of single paths.
pub mod Cors
pub mod Csrf
pub mod Protection
