-- ===== src/Lib.antt =====
-- A model of the Atlas IoT client (atlas_client/src), the C program that registers a device at its
-- gateway over CoAP, sends it telemetry, carries out its commands and speaks with the data plane on
-- the same device. The client is one process with one thread: a scheduler calls callbacks for
-- descriptors that are ready, timers are descriptors, and each request to the gateway waits in a
-- list for an answer or a timeout. Every message, to the gateway and to the data plane, is a batch
-- of commands of a type, a length and a value.
--
-- The files, and the code that they are about (paths below atlas_client/src):
--   Prelude    shared names; the outcome of C code (`Exec`), memory as bytes, texts
--   Status     utils/atlas_status.h, coap/atlas_coap_response.h, coap/atlas_coap_method.h
--   Command    commands/atlas_command.c: a batch as a length and a block. `add`, `set_raw` and
--              `get` read and write the block byte by byte. Below it Types (the command types),
--              Frame (what the bytes stand for), Build, Sender, Accept and Walk
--   State      the static variables of all files as one record `Client`, and the surroundings `Os`:
--              the answers of the kernel and of libcoap still to come, and what was done so far
--   Config     utils/atlas_config.c
--   Scheduler  scheduler/atlas_scheduler.c; below it Sweep, and Ready and Dispatch, on a round's two
--              loops
--   Alarm      alarm/atlas_alarm.c
--   CoapClient coap/atlas_coap_client.c; below it Requested, what a request comes to, Sending and
--              Answering
--   Register   register/atlas_register.c; below it Requests, Again and KeepAlive
--   Connector  data_plane_connector/atlas_data_plane_connector.c
--   DataPlane  data_plane/atlas_client.c, the other end of the connector's socket
--   Execute    commands_execute
--   Telemetry  telemetry/atlas_telemetry.c; below it Alerts for telemetry/atlas_alert_utils.c, and
--              Payloads for the payload callbacks of the other files there
--   Gateway    the gateway, the C++ program at the other end (paths below atlas_gateway/src):
--     Batch      commands/AtlasCommandBatch.cpp; below it Writing, Parsing, and Agreement with the
--                batches of the client
--     Transfer   commands/AtlasCommandXfer.cpp and the reads of its two users: commands in pieces
--     Types, Values, Maps   the command types, copied values, and maps as association lists
--     Filter     mosquitto_plugin/filter: the firewall in the broker, with its rules and limits
--     State, Device   device/AtlasDevice.cpp and policy/AtlasFirewallPolicy.cpp
--     PubSubAgent     pubsub_agent/AtlasPubSubAgent.cpp and, of device/AtlasDeviceManager.cpp, the
--                     devices in memory; below it Rules, from the gateway to the firewall, and
--                     Numbers and Statistics, from the firewall to the device
--     Endpoints  register/AtlasRegister.cpp and policy/AtlasPolicy.cpp; below it Clients, the C
--                client and the gateway together
--     DeviceCommands  the lists of commands of device/AtlasDevice.cpp and their acknowledgement in
--                claim_approve/AtlasApprove.cpp; below it Order, Runs and
--                Faults
--     System     a device and the firewall together, over all steps; below it Agreement (what is
--                to hold), Steps and Invariant
--   Tests      the theorems at concrete inputs
--
-- A definition has the name of the function that it models, less its prefix `atlas_`,
-- `atlas_cmd_batch_` or the like; a function that changes static variables takes a `Client` and returns one. A linked
-- list is a `List`, a negative descriptor or alarm id and a NULL pointer are `none`. Callbacks are
-- named by data types, and the functions that call one take the map from names to functions as a
-- parameter: `run` in Alarm and CoapClient, `payload` in Telemetry, `push_all` in Register.
--
-- Reads and writes outside a block, and reads of freed entries, have the outcome `ub`. A loop takes
-- fuel where its recursion is not structural: the validation of a buffer takes its length and one
-- more, the walk over a batch the length of the batch and one more (each command takes four bytes),
-- and the loop behind `select` what its own theorem asks for. A loop that runs out of fuel has the
-- outcome `spent`, which the theorems exclude.
--
-- The gateway is a second process. Its handlers take the payload of a request and the state of the
-- gateway, and the messages between gateway and plug-in are bytes that one side adds to a list and
-- the other processes. The plug-in's filter and the gateway run each operation to its end before the
-- next, as the mutex and the single scheduler thread make them. An asynchronous write is finished
-- when it was started. In System the plug-in is connected and takes each message before the next
-- step. The parser of the gateway has fuel for each byte and one more.
--
-- Not modelled: failing allocations, which the code does not check either; the logger; hosts that
-- are not little-endian; the building of CoAP messages out of URI, payload and token, which is left
-- to libcoap; the identity file and the command line; the CoAP server, the end-points of the push
-- alerts, and of the data plane its requests for a reputation and for the identity. Of the gateway:
-- the database, whose content is data of the state; times; the CoAP, HTTP and MQTT libraries and
-- their wrappers; the reputation, which is computed in floating point; JSON texts, which are values
-- of a data type here; the acceptance of commands of the cloud with their signatures; and the alerts
-- and the telemetry of a device. What the database answers on a command, and whether a request to a
-- device could be sent, are arguments of the operations on its commands.
pub mod Prelude
pub mod Status
pub mod Command
pub mod State
pub mod Config
pub mod Scheduler
pub mod Alarm
pub mod CoapClient
pub mod Telemetry
pub mod Execute
pub mod DataPlane
pub mod Connector
pub mod Register
pub mod Gateway
pub mod Tests
