-- ===== src/ChanLive.antt =====
-- src/chanlive.rs: what the server says of itself and of its channels, and the moves to the stored modes.
pub mod Isupport
pub mod Apply
pub mod Sync
pub mod Sound
pub mod Kept
pub mod Listed
pub mod Settle
pub mod Keyed
pub mod Limited
pub mod Converge
