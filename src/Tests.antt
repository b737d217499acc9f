-- ===== src/Tests.antt =====
-- Examples: the theorems at concrete inputs, and runs of the modelled functions.
pub mod Rfc
pub mod Echo
mod Calls
mod Pools
mod Services
mod Streams
mod Handled
mod Talks
mod Exports
mod Formats
mod Acquired
mod Adds
mod Synced
mod Counted
mod Grouped
mod Machines
mod Contexts
mod Messages
mod Stateless
pub mod Filters
mod Wires
