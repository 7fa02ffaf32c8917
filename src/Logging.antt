-- ===== src/Logging.antt =====
pub mod Routes
pub mod HttpRequests
