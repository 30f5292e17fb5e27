-- ===== src/Tests.antt =====
-- The library at concrete inputs, on a stand-in for the crate that it is a client of.
mod Sample
mod Pool
mod Small
mod Nodes
mod Net
mod Keys
mod Disk
mod Polled
mod Configured
mod Served
mod Saved
mod Restarted
mod Stored
