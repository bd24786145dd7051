-- ===== src/Northbound.antt =====
-- The Modbus TCP server for the energy manager, base-rockpie/: the map of include/gridex/NorthboundMap.hpp,
-- the bank of registers and the server on it.
pub mod Holding
pub mod Input
pub mod Slot
pub mod Bank
pub mod Publish
pub mod Server
