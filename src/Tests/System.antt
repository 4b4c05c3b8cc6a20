-- ===== src/Tests/System.antt =====
-- A device and the firewall at a concrete run: the device registers, a packet arrives, and a window
-- of the policers starts.
use resfit.Prelude.{◌≡◌, refl, false, none, some, [], arith, ok, ◌∷◌, length}
use resfit.Prelude.Text.{codes, str_eq}
use resfit.Gateway.Maps.{find}
use resfit.Gateway.State.{StoredDevice, Gateway}
use resfit.Gateway.Filter.{
  AtlasPacket, filter, timer_handler, AtlasFilter, AtlasPacketPolicer, packet_policer, packet_stats,
  process_command,
}
use resfit.Gateway.Device.{set_ip_port, register_now}
use resfit.Gateway.System.{
  System, moved, expire, Reach, registers, filters, starts_window, here, then_step,
}
use resfit.Gateway.System.Agreement.{Agrees}
use resfit.Gateway.System.Invariant.{starting, IsStart, Reach-Agrees, Reach-expire}
use resfit.Tests.Endpoints.{sensor, gateway, open_wall, sensor_named, device}
use resfit.Gateway.PubSubAgent
use resfit.Gateway.PubSubAgent.{get_firewall_rule_stats}
use resfit.Gateway.PubSubAgent.Rules.{sent}
use resfit.Gateway.PubSubAgent.Numbers.{Counts, CountsFit}
use resfit.Gateway.PubSubAgent.Statistics.{
  StatsFit, counted, get_firewall_rule_stats-process_command,
}
use resfit.Prelude.Memory.{Bytes}

abbrev hello : AtlasPacket
hello = record {
  src_client_id = some sensor;
  dst_client_id = codes "lamp-1";
  qos = 1;
  payload_len = 40;
}

abbrev saved : StoredDevice
saved = record { psk = codes "key"; stats = none }

abbrev no_devices : Gateway
no_devices = record gateway { devices = [] }

no_devices-IsStart : IsStart sensor no_devices open_wall
unfolding find
no_devices-IsStart = record {
  connected = refl;
  idle = refl;
  short = omega arith;
  named = sensor_named;
  free = refl;
}

-- The states after each step.
abbrev registered_at : System
registered_at =
    let s = starting sensor saved no_devices open_wall in
    moved s (set_ip_port (codes "10.0.0.9:5683") (register_now (s.device, s.gateway)))

abbrev after_packet : System
after_packet = record registered_at { filter = (filter registered_at.filter hello).0 }

abbrev last : System
last = record after_packet { filter = timer_handler after_packet.filter false }

abbrev run : Reach (starting sensor saved no_devices open_wall) last
run =
    then_step _ _
      (then_step _ _ (then_step _ _ here (registers (codes "10.0.0.9:5683"))) (filters hello))
      starts_window

Reach-Agrees_example : Agrees last
Reach-Agrees_example = Reach-Agrees sensor saved no_devices open_wall last no_devices-IsStart run

Reach-expire_example : (u : System) × (expire last ≡ ok u)
unfolding str_eq register_now
Reach-expire_example =
    Reach-expire sensor saved no_devices open_wall last no_devices-IsStart run refl

-- A rule that has counted packets.
abbrev rule : AtlasPacketPolicer
rule = record (packet_policer 1 60 512) { stat_pkt_drop = 3; stat_pkt_pass = 7 }

abbrev busy_wall : AtlasFilter
busy_wall = record {
  rules = (sensor, rule) ∷ [];
  tx_pkt_stats = (sensor, record { dropped_pkts = 1; passed_pkts = 2 }) ∷ [];
  to_gateway = [];
}

abbrev numbers : Counts
numbers = record { rule_dropped = 3; rule_passed = 7; tx_dropped = 1; tx_passed = 2 }

numbers_fit : CountsFit numbers
numbers_fit = omega arith

stats_fit : StatsFit device.stats
stats_fit = omega arith

get_firewall_rule_stats-process_command_example :
    (request : Bytes) × (answer : Bytes) × (f' : AtlasFilter) × (g' : Gateway)
    × (get_firewall_rule_stats gateway sensor ≡ ok (sent request gateway))
    × (process_command busy_wall (some request) (length request) ≡ ok f')
    × (f'.to_gateway ≡ answer ∷ [])
    × (find sensor f'.rules ≡ some (record rule { stat_pkt_drop = 0; stat_pkt_pass = 0 }))
    × (find sensor f'.tx_pkt_stats ≡ some packet_stats)
    × (PubSubAgent.process_command (sent request gateway) (some answer) (length answer) ≡ ok g')
    × (find sensor g'.devices ≡ some (record device { stats = counted device.stats numbers }))
unfolding find str_eq
get_firewall_rule_stats-process_command_example =
    get_firewall_rule_stats-process_command gateway busy_wall device rule sensor (omega arith)
      sensor_named refl refl numbers_fit refl stats_fit
