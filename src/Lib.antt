-- ===== src/Lib.antt =====
-- GrideX edge gateway: a controller for battery storage on a ROCK Pi, and field nodes on ESP32.
--
-- An energy manager writes a power request to the registers of the gateway over Modbus TCP. The
-- gateway polls the storage system, bounds the request by the limits of the battery, of the site and
-- of the configuration, and writes what is left. Nodes offer their devices through a register map of
-- their own, which the gateway polls.
--
-- Files and code, with paths from the root of the repository:
--   Types                 include/gridex/Types.hpp, the values that are exchanged
--   Safety                src/SafetyEnvelope.cpp, SafetyEnvelope::apply
--   Modbus                include/gridex/IModbusClient.hpp
--   Driver                src/SunStoragePro261Driver.cpp and its header: Registers, Codec
--                         (decodeSigned, encodeSigned), Readings and Poll (poll), Writes (every write)
--   Controller            src/EdgeController.cpp, receiveCommand and tick
--   Mbus                  node-esp32-evb/: Reg (RegisterMap.hpp), Crc, Node and Frame
--                         (src/MbusNode.cpp), Control (src/EthernetControlServer.cpp, handle),
--                         Stream (the same file, processFrames), Server (the same, its loop),
--                         Command (src/main.cpp, applyCommand), Board (src/main.cpp, the rest of its
--                         state that reaches the registers), Line (ProvisioningLine.hpp), Provisioning
--                         (src/main.cpp, the lines of the serial port and the stored settings), Cloud
--                         (src/MqttTelemetryService.cpp), Firmware (src/main.cpp, setup and loop)
--   Telemetry             base-rockpie/include/gridex/rockpie/MbusNodeTelemetry.hpp
--   Tcp                   base-rockpie/src/PosixModbusTcpClient.cpp; Calls has its public calls, Link a
--                         socket to a peer and, in Node, to the node of Mbus
--   Polling               base-rockpie/src/NodeTcpPollingService.cpp
--   Journal               base-rockpie/src/TelemetryJournal.cpp
--   Mqtt                  base-rockpie/src/MqttHealthPublisher.cpp: the texts; Publish has the topics and
--                         the guards, Connect the constructor and the destructor, Number how a
--                         decimal number is read
--   Ota                   node-esp32-evb/src/EspOtaService.cpp; Routes has its web server and its loop
--   Apply                 base-rockpie/src/OtaApply.cpp: Sha256, Arguments, Upload (main)
--   Northbound            base-rockpie/: Holding, Input and Slot (include/gridex/NorthboundMap.hpp), Bank
--                         and Publish (src/NorthboundRegisterBank.cpp), Server
--                         (src/NorthboundModbusTcpServer.cpp: handlePdu; Session has the connections,
--                         Lifecycle start and stop)
--   Daemon                base-rockpie/src/main.cpp, the commands that the control loop takes; Nodes has
--                         what it does for the nodes, Turn the whole loop, Environment the settings,
--                         System src/SystemTelemetry.cpp
--   Prelude, Double       shared: lists, tests, integers, 16-bit words; the numbers of the code
--   Tests                 concrete inputs
--
-- How state is modelled. An object is a record, and an operation that changes it returns the new one.
-- A Modbus connection is any state S with the functions of IModbusClient, each of which returns the
-- next state and may fail; a computation on it is Io S A. The device of a node is a function on any
-- state in the same way. An operation of the register bank is one step, as its mutex makes it.
--
-- Numbers. A `double` is NaN, an infinity or a multiple of 0.001: every finite value that the code
-- makes is one, since registers are divided by 1, 10 or 100 and the constants are 0.0, 0.001 and
-- 100.0. Rounding of binary fractions is not modelled, nor is the sign of zero. A register is a
-- natural number below 65536, and a byte one below 256. Times of the gateway are nanoseconds as
-- natural numbers; the clock of a node is its 32-bit count of milliseconds. A reason text is a
-- constructor of its own.
--
-- What other code does is a parameter with laws: the socket, the file system, the flash and the hash
-- of the ESP32, the broker. The texts of a time and of a `double` are functions that are given.
--
-- Loops. Most are recursions on a list or on a count. The loops of processFrames, sendAll, receiveAll
-- and Sha256::update run for a number of turns: as many as there are bytes, since each turn takes one
-- at least. A call of recv or send in NorthboundModbusTcpServer.cpp may be interrupted by a signal and
-- repeated, so its transfers run on a number of calls: as many as there are bytes and signals are
-- enough, and a transfer whose calls did not suffice has an outcome of its own, which is no end
-- of the connection. The loops of its connections run on a number of polls, and say whether they have
-- returned; those of the daemon and of the firmware run on a list of turns, one for each.
--
-- Not modelled: threads, the requests of the energy manager being served between two turns of the
-- daemon; serial hardware, watchdogs and the console; signals; the parsing of
-- HTTP requests, which a library does for EspOtaService.cpp; installation scripts.
pub mod Prelude
pub mod Double
pub mod Types
pub mod Safety
pub mod Modbus
pub mod Driver
pub mod Controller
pub mod Mbus
pub mod Telemetry
pub mod Northbound
pub mod Tcp
pub mod Polling
pub mod Journal
pub mod Mqtt
pub mod Ota
pub mod Apply
pub mod Daemon
pub mod Tests
