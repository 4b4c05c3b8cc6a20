-- ===== src/Tests/Endpoints.antt =====
-- The end-points of the gateway, its devices and its messages to the plug-in at a concrete gateway.
use resfit.Prelude.{
  ◌<◌, ◌≡◌, ◌≢◌, refl, true, false, none, some, [], ◌∷◌, arith, length, if◌then◌else◌, ok,
}
use resfit.Prelude.Memory.{Bytes}
use resfit.Prelude.Text.{codes, str_eq, decimal}
use resfit.Status.{CoapResponse}
use resfit.Command.Frame.{encode}
use resfit.Config.{get_local_ip_port}
use resfit.Connector
use resfit.Register.{set_ka_count, keepalive_callback}
use resfit.Register.Requests.{Configured, register_frames, keepalive_frames}
use resfit.DataPlane.{ClientInfo}
use resfit.DataPlane.Policy.{with_info}
use resfit.Gateway.Maps.{find}
use resfit.Gateway.State.{
  AtlasCoapResponse, AtlasFirewallPolicy, AtlasDevice, Gateway, register_event, policy_event,
  update_device,
}
use resfit.Gateway.PubSubAgent.{get_device, new_device, remove_firewall_rule}
use resfit.Gateway.PubSubAgent.Rules.{sent, remove_firewall_rule-process_command}
use resfit.Gateway.Filter
use resfit.Gateway.Filter.{AtlasFilter, packet_policer}
use resfit.Gateway.Device.{set_policy_info}
use resfit.Gateway.Device.Lifetime.{
  untold, expire_times, gone, removed, expire_times_lem, set_policy_info_lem,
}
use resfit.Gateway.Endpoints
use resfit.Gateway.Endpoints.{Answer, refused, register_callback, firewall_policy_callback}
use resfit.Gateway.Endpoints.Registering.{IsRegistered, texts, register_callback-spoofed}
use resfit.Gateway.Endpoints.Keeping.{IsKept}
use resfit.Gateway.Endpoints.Policies.{with_policy}
use resfit.Gateway.Endpoints.Clients.{
  address, policy_of, register_callback-register_frames, keepalive_callback-keepalive_frames,
  firewall_policy_callback-process_command,
}
use resfit.Tests.{settings, client}

-- The gateway of the client `sensor-7`, whose device has registered and has a policy.
abbrev pub sensor : Bytes
sensor = codes "sensor-7"

abbrev policy : AtlasFirewallPolicy
policy = record { client_id = sensor; qos = 1; ppm = 60; payload_len = 512 }

abbrev pub device : AtlasDevice
device = record (new_device sensor (record { psk = codes "key"; stats = none })) {
  registered = true;
  ka_ctr = some 4;
  policy = some policy;
}

abbrev pub gateway : Gateway
gateway = record {
  database = [];
  devices = (sensor, device) ∷ [];
  connected = true;
  to_agent = [];
  cloud = [];
  alerted = [];
}

abbrev pub open_wall : AtlasFilter
open_wall = record { rules = []; tx_pkt_stats = []; to_gateway = [] }

abbrev info : ClientInfo
info = record { qos = 1; packets_per_min = 60; packets_maxlen = 512 }

configured : Configured settings
configured = record {
  short_identity = omega arith;
  short_hostname = omega arith;
  short_port = omega arith;
}

known_device : get_device gateway sensor ≡ (gateway, some device)
unfolding get_device find str_eq
known_device = refl

has_address : 0 < length (address settings)
unfolding get_local_ip_port decimal
has_address = omega arith

pub sensor_named : sensor ≢ []
sensor_named e = cc

register_callback-register_frames_example :
    (a : Answer) × (d' : AtlasDevice) × (register_callback sensor
        (some (encode (register_frames settings)))
        (length (encode (register_frames settings)))
        gateway
      ≡ ok a)
    × (a.response ≡ AtlasCoapResponse.ok)
    × (find sensor a.gateway.devices ≡ some d')
    × IsRegistered (address settings) device d'
register_callback-register_frames_example =
    register_callback-register_frames settings gateway gateway device configured (omega arith)
      has_address known_device

keepalive_callback-keepalive_frames_example :
    let bytes = encode (keepalive_frames settings 513) in
    (a : Answer) × (d' : AtlasDevice) × (Endpoints.keepalive_callback sensor
        (some bytes)
        (length bytes)
        gateway
      ≡ ok a)
    × (a.response ≡ AtlasCoapResponse.ok)
    × (find sensor a.gateway.devices ≡ some d')
    × IsKept (address settings) device d'
    × (keepalive_callback CoapResponse.ok a.resp_payload client ≡ ok (set_ka_count 3 client))
keepalive_callback-keepalive_frames_example =
    keepalive_callback-keepalive_frames client gateway gateway device configured (omega arith)
      has_address (omega arith) known_device refl

firewall_policy_callback-process_command_example :
    let request = encode (Connector.policy_frames (with_info info client.connector)) in
    (bytes : Bytes) × (a : Answer) × (f' : AtlasFilter) × (firewall_policy_callback sensor
        (some request)
        (length request)
        gateway
      ≡ ok a)
    × (a.response ≡ AtlasCoapResponse.ok)
    × (a.gateway ≡ sent bytes (with_policy (policy_of sensor info) device gateway))
    × (Filter.process_command open_wall (some bytes) (length bytes) ≡ ok f')
    × (find sensor f'.rules ≡ some (packet_policer 1 60 512))
firewall_policy_callback-process_command_example =
    firewall_policy_callback-process_command sensor info client.connector gateway gateway device
      open_wall (omega arith) (omega arith) sensor_named known_device refl refl

register_callback-spoofed_example :
    register_callback sensor
      (some (encode (texts (codes "lamp-1") (codes "10.0.0.9:5683"))))
      (length (encode (texts (codes "lamp-1") (codes "10.0.0.9:5683"))))
      gateway
    ≡ ok (refused gateway)
register_callback-spoofed_example =
    register_callback-spoofed sensor (codes "lamp-1") (codes "10.0.0.9:5683") gateway (omega arith)
      (omega arith) (λ e. cc)

expire_times_lem_example :
    (expire_times 3 (device, gateway) ≡ ok (record device { ka_ctr = some 1 }, gateway))
    × (expire_times 4 (device, gateway)
        ≡ ok (
          gone device,
          update_device sensor (register_event false) (removed (some policy) gateway),
        ))
expire_times_lem_example =
    expire_times_lem 3 3 device gateway (omega arith) refl refl (omega arith, sensor_named) refl

-- A policy with another number of packets per minute.
set_policy_info_lem_example : set_policy_info (record policy { ppm = 90 }) (device, gateway) ≡ (
  record device { policy = some (record policy { ppm = 90 }) },
  (if untold (some policy) (record policy { ppm = 90 })
      then gateway
      else update_device sensor (policy_event (record policy { ppm = 90 })) gateway),
)
set_policy_info_lem_example = set_policy_info_lem (record policy { ppm = 90 }) device gateway

remove_firewall_rule-process_command_example :
    (bytes : Bytes) × (remove_firewall_rule gateway sensor ≡ ok (sent bytes gateway))
    × ((f' : AtlasFilter) × (Filter.process_command open_wall (some bytes) (length bytes) ≡ ok f')
        × ((d : Bytes)
            → find d f'.rules ≡ (if str_eq sensor d then none else find d open_wall.rules)))
remove_firewall_rule-process_command_example =
    remove_firewall_rule-process_command gateway open_wall sensor (omega arith) sensor_named refl
