-- ===== src/Examples.antt =====
-- Runs of the modelled code on small inputs, and each theorem at one of them.
mod Globs
mod Replicas
mod Sending
mod Settings
mod Editing
mod Floods
mod Channels
mod Records
mod Live
mod Dialing
mod Bans
