-- ===== src/Auth.antt =====
-- Signing in and staying signed in: tokens, their refresh, redirects to and from the auth page.
pub mod Redirect
pub mod Session
pub mod Connect
pub mod Manager
pub mod Oauth
