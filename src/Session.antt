-- ===== src/Session.antt =====
-- The user's session, lib/store.ts: its data, the keys under which it is kept, and its operations.
pub mod Data
pub mod Keys
pub mod Users
pub mod Login
pub mod Valid
pub mod RoundTrip
pub mod LoginState
pub mod LogoutState
pub mod PinSession
pub mod Histories
