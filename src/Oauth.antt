-- ===== src/Oauth.antt =====
-- The OAuth session of a deployment: oauth/sessionManager.ts with what it uses of oauth/errors.ts,
-- oauth/utils.ts and oauth/constants.ts.
pub mod Tokens
pub mod Session
pub mod Events
pub mod Running
pub mod Flights
pub mod Aborted
mod Tests
