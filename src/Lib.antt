-- ===== src/Lib.antt =====
-- Klippylink: firmware for a router dongle and its nodes.
--
-- A host talks to the router over a serial line. Each frame is a node id and a packet of the protocol
-- in shared/protocol/klip_protocol.h. The router parses the frames (router/main/command_parser.c),
-- looks the node up in its table (router/main/node_registry.c) and writes the packet to the node over
-- Bluetooth (router/main/ble_central.c); notifications of a node go back to the host with its id. A
-- node reads its configuration from a file (node/main/config_loader.c) and sets its parts up
-- (node/main/main.c); its Bluetooth server (node/main/gatt_server.c) hands each packet to the part
-- that it is for: LED strips (node/main/neopixel.c) with effects on zones of them
-- (node/main/led_effects.c), endstops (node/main/endstop.c), a heater (node/main/heater.c), a
-- wireless network (node/main/wifi_node.c), and firmware in pieces (node/main/ota_handler.c), which
-- the router sends (router/main/ota_handler.c).
--
-- Files:
--   Common, Common/Tests, Common/Lists: Boolean tests and lists over the native numbers.
--   Esp: the error codes. Json: the JSON library as an interface, and faults; child Doc, the documents
--     that are printed and what it means that a parsed value shows one.
--   Protocol, Protocol/Codes, Protocol/Payloads (the structs): klip_protocol.h.
--   Router/Registry: node_registry.c, the node table as a list of slots; children Info
--     (node_update_info), Bounds, Slots, Lookup, Ids, History and Identity.
--   Router/Parser: command_parser.c, the receive buffer and one round of its loop as feed_byte;
--     children Spec (the same without a buffer), Bounds, Refine, Frames and Desync.
--   Router/Central: ble_central.c, one step for each event of the Bluetooth stack, with the calls that
--     it makes as a list of actions; children Conns (the connection table), Events, Discovery, Notify,
--     Faults, Updates, Tables and Runs.
--   Router/Serial: serial_bridge.c, reading in rounds, and emitting at once or as the steps of several
--     tasks at the mutex; children Reads and Writes.
--   Router/OtaPush: the router's ota_handler.c; children Chunks, Sent and Ends.
--   Router/Start: main.c of the router and ble_central_init; child Ready.
--   Node/Ota: the node's ota_handler.c over an interface for the flash and the OTA driver (Driver);
--     children ReadBack, Branches, Transfer, Session and History (any calls, against a machine that
--     knows only the bytes; with Tracked).
--   Node/Neopixel: neopixel.c over an interface for the LED driver (Driver); children Fill and Paint.
--   Node/Effects: led_effects.c; children Colors, Zone, Arith, Faults, Frames, Isolation, Zones and
--     Rounds.
--   Node/Endstop: endstop.c; child Inputs.
--   Node/Config: config_loader.c over an interface for the files; children Bounds (with Loaded), Saved and
--     RoundTrip.
--   Node/Wifi: wifi_node.c as sequences of calls with their results as a parameter.
--   Node/Heater: heater.c over an interface for floats, a round of its task in two steps; children
--     Setup (heater_init) and Stop.
--   Node/Gatt: gatt_server.c on the state of all parts; children Info (the node's description), Adv
--     (its advertising data), Dispatch (a packet to its part), Events (the callbacks), Runs
--     (sequences of callbacks), Table (the attributes), Payloads (the structs of the protocol as the
--     node takes them), and for the theorems Cases (one walk through the dispatch), Short, Answers,
--     Faults and Advert.
--   Node/Boot: main.c; children Parts and Ready.
--   Node/Running: the callbacks and tasks of a node in any order; children Parts, Kept and
--     Started.
--   Update: a push of the router's ota_handler.c to a node's GATT server; children Packets and Whole.
--   Discovery: the description of a node as node_registry.c takes it; child Described.
--   Exchange: the host, the router and a node together, a frame of the host and the node's answer;
--     children Links (what it is to be linked), Answered (any command that is answered), Commands, and
--     Linked (how a node and the router find each other).
--   Bench: a small node with drivers, files and a parser, for the tests.
--   Router/Tests, Router/FrameTests, Router/CentralTests, Router/SerialTests, Router/StartTests,
--     Node/Tests, Node/OtaTests, Node/ConfigTests, Node/HeaterTests, Node/GattTests, Update/Tests and
--     Exchange/Tests: the theorems at concrete inputs; Discovery/Tests: a description for them.
--
-- State is passed explicitly: each operation takes the static variables of its file and returns them.
-- A byte is a number below 256, and a cast or an addition that can wrap has its `%` written out. A
-- fault, such as a read through a null pointer, a write past a buffer or a division by zero, is
-- `none` of an Option.
--
-- Loops are structural, with the rounds that are left, but for two on fuel: the read-back of the
-- node's ota_end and the stream of the router's ota_push_to_node. Each round of either moves the
-- offset on by at least one byte, so as many rounds as there are bytes are enough; the fuel is the
-- number of bytes.
--
-- Parameters stand for code outside the repository: the JSON library, with documents that are printed
-- and parsed back; the file system (a file that was written is what is read); the OTA driver, flash
-- and CRC of ESP-IDF (with the laws that a write appends, a read returns what was written, a CRC can be
-- continued, and the partition that was chosen last is the one to start next); the LED driver (a pixel
-- inside the strip is taken and changes nothing else, a refresh shows the buffer, and a handle stands
-- for the pin that it was made for); the Bluetooth stack's search in an attribute table (which finds
-- what gatt_server.c has put there) and through advertising data (the data of the first structure with
-- the type); the Bluetooth link of Exchange, on which a write gets through if its call returns ESP_OK and it
-- fits in the MTU, and a notification if it fits and the router's stack hands notifications on, which
-- is documented only after esp_ble_gattc_register_for_notify, a call that the router does not make;
-- the results of the calls for the wireless
-- network, of the UART, of the Bluetooth stack's set-up and of the NVS, of the heater's ADC and PWM,
-- and of the update over HTTPS; gpio_config and gpio_get_level; rand; and floats with their operations,
-- with the float computations of the breathe effect.
--
-- Not modelled: logging and delays; the creation of tasks; the router's main loop, which only logs;
-- the Python code for the host. The tasks of the firmware are not interleaved inside an operation,
-- but for the heater's round, which a callback can come into, and the writes to the serial line.
pub mod Common
pub mod Protocol
pub mod Json
pub mod Router
pub mod Update
pub mod Discovery
pub mod Exchange
pub mod Bench
pub mod Esp
pub mod Node
