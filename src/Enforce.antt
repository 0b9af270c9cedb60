-- ===== src/Enforce.antt =====
-- src/chanenf.rs: who is in a channel, and the masks that keep somebody out of it.
pub mod Masks
pub mod Covers
pub mod Members
pub mod Safe
pub mod Version
pub mod Deal
pub mod Order
pub mod Holder
pub mod Single
pub mod Dealt
