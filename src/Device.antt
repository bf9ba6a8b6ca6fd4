-- ===== src/Device.antt =====
-- internal/device/device.go: the correlation table. The parts stand in the child modules; this file
-- passes their names on.
pub mod Types
pub mod Record
pub mod EpicsState
pub mod Table
pub mod Steps
pub mod Leases
pub mod Exchanges
pub mod Neighbors
pub mod Channels
pub mod PvaChannels
pub mod Apply
pub mod Addresses
pub mod Sound
pub mod Conflicts
pub mod Claims
pub mod Valid
pub mod Moves
pub mod ChannelSteps
pub mod Searches
pub mod Packets
