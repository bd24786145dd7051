-- ===== src/Driver.antt =====
-- src/SunStoragePro261Driver.cpp: the driver of the Suntech STE-261L storage system.
pub mod Registers
pub mod Codec
pub mod Readings
pub mod Poll
pub mod Writes
