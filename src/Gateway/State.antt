-- ===== src/Gateway/State.antt =====
-- The state of the gateway: its devices (atlas_gateway/src/device/AtlasDevice.h), its connection to
-- the plug-in of the broker, and what it has told the cloud.
use resfit.Prelude.{ℕ, Bool, Option, List, [], ◌∷◌, ◌++◌}
use resfit.Prelude.Memory.{Bytes}
use resfit.Gateway.Maps.{Dict}

-- AtlasCoapResponse.h
pub data AtlasCoapResponse : Type 0 where
  ok not_found not_acceptable timeout reset unknown : AtlasCoapResponse

-- AtlasFirewallPolicy.h
pub record AtlasFirewallPolicy : Type 0 where
  pub client_id : Bytes
  pub qos : ℕ
  pub ppm : ℕ
  pub payload_len : ℕ

-- AtlasFirewallStats.h
pub record AtlasFirewallStats : Type 0 where
  pub client_id : Bytes
  pub rule_dropped_pkts : ℕ
  pub rule_passed_pkts : ℕ
  pub tx_dropped_pkts : ℕ
  pub tx_passed_pkts : ℕ

-- The members of a device that its operations here change. The counter of keep-alives is not
-- initialised before the first registration.
pub record AtlasDevice : Type 0 where
  pub identity : Bytes
  pub ip_port : Bytes
  pub registered : Bool
  pub ka_ctr : Option ℕ
  pub keep_alive_pkts : ℕ
  pub policy : Option AtlasFirewallPolicy
  pub stats : AtlasFirewallStats

-- What `updateDevice` tells the cloud of a device, without the times in it.
pub data CloudUpdate : Type 0 where
  whole_device : AtlasDevice → CloudUpdate
  register_event : (registered : Bool) → CloudUpdate
  keepalive_event : CloudUpdate
  ip_port_event : Bytes → CloudUpdate
  policy_event : AtlasFirewallPolicy → CloudUpdate
  stats_event : AtlasFirewallStats → CloudUpdate

-- What the database has of a device: the key, the empty text for none, and the statistics if they
-- were saved.
pub record StoredDevice : Type 0 where
  pub psk : Bytes
  pub stats : Option AtlasFirewallStats

-- The gateway: the database, the devices in memory, whether the plug-in is connected and what was
-- written to it, the updates of the cloud, and the devices that alerts were sent to.
pub record Gateway : Type 0 where
  pub database : Dict StoredDevice
  pub devices : Dict AtlasDevice
  pub connected : Bool
  pub to_agent : List Bytes
  pub cloud : List (Bytes × CloudUpdate)
  pub alerted : List Bytes

abbrev pub update_device : Bytes → CloudUpdate → Gateway → Gateway
update_device identity update g = record g { cloud = g.cloud ++ (identity, update) ∷ [] }
