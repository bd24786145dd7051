-- ===== src/Apply.antt =====
-- base-rockpie/src/OtaApply.cpp: the program that sends a firmware file to a node.
pub mod Sha256
pub mod Chunks
pub mod Digest
pub mod Arguments
pub mod Upload
