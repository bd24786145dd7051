-- ===== src/Mbus.antt =====
-- node-esp32-evb/: the firmware of a field node. `Reg`, `Crc`, `Node` and `Frame` are the register
-- map and src/MbusNode.cpp, `Control`, `Stream` and `Server` are src/EthernetControlServer.cpp, `Line` is
-- include/gridex/mbus/ProvisioningLine.hpp, `Cloud` is src/MqttTelemetryService.cpp. `Command`, `Board`,
-- `Provisioning` and `Firmware` are src/main.cpp.
pub mod Reg
pub mod Crc
pub mod Node
pub mod Frame
pub mod Control
pub mod Server
pub mod Command
pub mod Board
pub mod Line
pub mod Provisioning
pub mod Cloud
pub mod Firmware
pub mod Stream
