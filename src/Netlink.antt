-- ===== src/Netlink.antt =====
-- net/netlink_util.h, netlink_monitor.h, netlink_monitor.cc, netlink.cc and interface_activator.h.
pub mod Sets
pub mod Builder
pub mod Interfaces
pub mod Addresses
pub mod Monitor
pub mod Mirror
pub mod Replay
pub mod Told
pub mod Reading
pub mod Mirrored
pub mod WellFormed
pub mod Created
pub mod Announced
pub mod Listened
pub mod Requests
pub mod Device
pub mod Activator
pub mod Layout
pub mod Activated
