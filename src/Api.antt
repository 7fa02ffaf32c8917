-- ===== src/Api.antt =====
-- Parts of src/api.
pub mod AuthInterceptor
pub mod UpdateParameters
