-- ===== src/Errors.antt =====
pub mod ClientCertificate
