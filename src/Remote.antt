-- ===== src/Remote.antt =====
-- components/remote_client: the cloud channel's state machine, its reconnect delay, its allow-lists
-- and its stored credentials.
pub mod State
pub mod Backoff
pub mod Allow
pub mod Client
pub mod Stored
pub mod Life
pub mod Api
