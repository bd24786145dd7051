-- ===== src/Tests.antt =====
-- Concrete inputs of the theorems, and runs of the code on them.
mod Bench
mod Safety
mod Mbus
mod Northbound
mod Driver
mod Controller
mod Daemon
mod Tcp
mod Polling
mod Ota
mod Journal
mod Mqtt
mod Apply
