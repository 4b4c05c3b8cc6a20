-- ===== src/Gateway.antt =====
-- The gateway (atlas_gateway/src): the C++ program that the client registers at, as far as it
-- carries the messages of the client on, and the plug-in of the broker that it commands.
pub mod Batch
pub mod Transfer
pub mod Types
pub mod Values
pub mod Maps
pub mod Filter
pub mod State
pub mod PubSubAgent
pub mod Device
pub mod Endpoints
pub mod DeviceCommands
pub mod System
