-- ===== src/ChanCfg.antt =====
-- src/chancfg.rs: channel settings (C|), network defaults (D|) and network bans (B|).
pub mod Parse
pub mod Settings
pub mod Lines
pub mod Bans
pub mod Edit
pub mod FieldEdit
pub mod Table
pub mod Unique
pub mod Tokens
pub mod TokenEdit
pub mod LastToken
pub mod EditParse
pub mod Purge
pub mod Number
pub mod Fields
pub mod Range
pub mod RoundTrip
pub mod Effective
pub mod Arrivals
pub mod Replicas
pub mod RoundTripBan
pub mod Caps
