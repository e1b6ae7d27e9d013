-- ===== src/Radar.antt =====
-- source/daemon/radar_reader.c and radar_data.h: the live reader, a module for each of its parts.
pub mod Items
pub mod Meta
pub mod Publish
pub mod Text
pub mod World
pub mod Classes
pub mod Tick
