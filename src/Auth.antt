-- ===== src/Auth.antt =====
-- extension/oidcclientauth: the authenticator of every request.
pub mod Reason
pub mod Bearer
pub mod Float
pub mod Claims
pub mod Verify
pub mod KeySet
pub mod Rejections
pub mod AuthData
pub mod Authenticator
pub mod Provider
pub mod Config
pub mod Factory
mod Tests
