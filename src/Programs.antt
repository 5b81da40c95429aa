-- ===== src/Programs.antt =====
-- The two programs, main.cc and playback_tun.cc, with net/tun_interface.cc.
pub mod Running
pub mod Tun
pub mod Router
pub mod Flushed
pub mod Forwarded
pub mod Playback
pub mod Logged
pub mod Replayed
