-- ===== src/Auth.antt =====
-- src/frontend/src/lib/auth.ts, the sign-in state of the browser, and what the pages derive from it.
pub mod Token
pub mod Store
pub mod Guard
mod Tests
