-- ===== src/Auth.antt =====
-- internal/auth/auth.go: the timestamp window, the nonce cache, the signature, the handler.
pub mod Window
pub mod Nonce
pub mod Handler
