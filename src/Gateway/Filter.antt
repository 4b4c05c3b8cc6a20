-- ===== src/Gateway/Filter.antt =====
-- atlas_gateway/src/mosquitto_plugin/filter: AtlasPacketPolicer.cpp and AtlasFilter.cpp, the
-- firewall that the gateway's plug-in puts into the broker.
pub mod Limits
pub mod Commands
use resfit.Prelude.{
  ℕ, ◌+◌, ◌%◌, Bool, true, false, ◌&&◌, Option, none, some, List, [], ◌∷◌, ◌++◌, ltb, ◌==◌,
  if◌then◌else◌, length, Exec, ok, ub, ◌>>=◌,
}
use resfit.Prelude.Memory.{Bytes}
use resfit.Prelude.Text.{str_eq}
use resfit.Gateway.Types
use resfit.Gateway.Batch.{
  AtlasCommand, atlas_command, received_commands, serialized_commands, nested_command,
}
use resfit.Gateway.Values.{value_text, value_u16, htonl, host_bytes32, for_commands}
use resfit.Gateway.Maps.{Dict, find, store, erase, for_each}

-- A packet as far as it is looked at; the source has a client id or NULL.
pub record AtlasPacket : Type 0 where
  pub src_client_id : Option Bytes
  pub dst_client_id : Bytes
  pub qos : ℕ
  pub payload_len : ℕ

pub record AtlasPacketPolicer : Type 0 where
  pub window_ppm : ℕ
  pub max_qos : ℕ
  pub ppm : ℕ
  pub max_payload_len : ℕ
  pub stat_pkt_drop : ℕ
  pub stat_pkt_pass : ℕ

-- Numbers of type uint32_t.
abbrev pub u32_mod : ℕ
u32_mod = 4294967296

-- The constructor takes a uint8_t and two uint16_t.
abbrev pub packet_policer : (max_qos ppm max_payload_len : ℕ) → AtlasPacketPolicer
packet_policer max_qos ppm max_payload_len = record {
  window_ppm = 0;
  max_qos = max_qos % 256;
  ppm = ppm % 65536;
  max_payload_len = max_payload_len % 65536;
  stat_pkt_drop = 0;
  stat_pkt_pass = 0;
}

-- The label DROP, and the way past it.
abbrev policer_drop : AtlasPacketPolicer → AtlasPacketPolicer × Bool
policer_drop p = (record p { stat_pkt_drop = (p.stat_pkt_drop + 1) % u32_mod }, false)

abbrev policer_pass : AtlasPacketPolicer → AtlasPacketPolicer × Bool
policer_pass p = (record p { stat_pkt_pass = (p.stat_pkt_pass + 1) % u32_mod }, true)

abbrev policer_check : AtlasPacketPolicer → AtlasPacket → AtlasPacketPolicer × Bool
policer_check p pkt =
    if ltb p.max_qos pkt.qos
    then policer_drop p
    else if ltb p.max_payload_len pkt.payload_len
    then policer_drop p
    else if ltb p.ppm p.window_ppm
    then policer_drop p
    else policer_pass p

-- `AtlasPacketPolicer::filter`: the counter of the window counts every packet
unfoldable pub policer_filter : AtlasPacketPolicer → AtlasPacket → AtlasPacketPolicer × Bool
policer_filter p pkt = policer_check (record p { window_ppm = (p.window_ppm + 1) % u32_mod }) pkt

abbrev pub rate_limit_window_start : AtlasPacketPolicer → AtlasPacketPolicer
rate_limit_window_start p = record p { window_ppm = 0 }

pub record AtlasPacketStats : Type 0 where
  pub passed_pkts : ℕ
  pub dropped_pkts : ℕ

abbrev pub packet_stats : AtlasPacketStats
packet_stats = record { passed_pkts = 0; dropped_pkts = 0 }

-- `incPassedPkts` and `incDroppedPkts`
abbrev pub inc_pkts : Bool → AtlasPacketStats → AtlasPacketStats
inc_pkts true s = record s { passed_pkts = (s.passed_pkts + 1) % u32_mod }
inc_pkts false s = record s { dropped_pkts = (s.dropped_pkts + 1) % u32_mod }

-- The maps of the filter, and what it has written to the gateway.
pub record AtlasFilter : Type 0 where
  pub rules : Dict AtlasPacketPolicer
  pub tx_pkt_stats : Dict AtlasPacketStats
  pub to_gateway : List Bytes

-- The timer starts a new window for every rule, if it ran out without an error.
unfoldable pub timer_handler : AtlasFilter → (ec : Bool) → AtlasFilter
timer_handler f ec = if ec then f else record f { rules = for_each rate_limit_window_start f.rules }

abbrev pub with_rule :
    AtlasFilter → Bytes → AtlasPacket → Option AtlasPacketPolicer → AtlasFilter × Bool
with_rule f dst pkt none = (f, true)
with_rule f dst pkt (some p) =
    let (p', process_pkt) = policer_filter p pkt in
    (record f { rules = store dst p' f.rules }, process_pkt)

abbrev tx_found : AtlasFilter → Bytes → Bool → Option AtlasPacketStats → AtlasFilter
tx_found f src process_pkt none = f
tx_found f src process_pkt (some s) = record f {
  tx_pkt_stats = store src (inc_pkts process_pkt s) f.tx_pkt_stats;
}

abbrev pub count_tx : AtlasFilter → Option Bytes → Bool → AtlasFilter
count_tx f none process_pkt = f
count_tx f (some src) process_pkt = tx_found f src process_pkt (find src f.tx_pkt_stats)

-- `AtlasFilter::filter`
pub filter : AtlasFilter → AtlasPacket → AtlasFilter × Bool
unfolding policer_filter
filter f pkt =
    let (f', process_pkt) = with_rule f pkt.dst_client_id pkt (find pkt.dst_client_id f.rules) in
    (count_tx f' pkt.src_client_id process_pkt, process_pkt)

-- What `installFirewallRule` has read so far.
pub record Rule : Type 0 where
  pub client_id : Bytes
  pub max_qos : Option ℕ
  pub ppm : Option ℕ
  pub max_payload_len : Option ℕ

abbrev pub no_rule : Rule
no_rule = record { client_id = []; max_qos = none; ppm = none; max_payload_len = none }

pub rule_body : Rule → AtlasCommand → Exec Rule
rule_body r cmd =
    if cmd.type == Types.pub_sub_client_id
    then (do id ← value_text cmd; ok (record r { client_id = id }))
    else if (cmd.type == Types.pub_sub_max_qos) && (cmd.len == 2)
    then (do x ← value_u16 cmd; ok (record r { max_qos = some x }))
    else if (cmd.type == Types.pub_sub_ppm) && (cmd.len == 2)
    then (do x ← value_u16 cmd; ok (record r { ppm = some x }))
    else if (cmd.type == Types.pub_sub_max_payload_len) && (cmd.len == 2)
    then (do x ← value_u16 cmd; ok (record r { max_payload_len = some x }))
    else ok r

abbrev install_found : AtlasFilter → Bytes → (qos ppm len : Option ℕ) → AtlasFilter
install_found f id (some qos) (some ppm) (some len) = record f {
  rules = store id (packet_policer qos ppm len) f.rules;
  tx_pkt_stats = store id packet_stats f.tx_pkt_stats;
}
install_found f id _ _ _ = f

unfoldable pub install_rule : AtlasFilter → Rule → AtlasFilter
install_rule f r =
    if str_eq r.client_id []
    then f
    else install_found f r.client_id r.max_qos r.ppm r.max_payload_len

pub install_firewall_rule :
    AtlasFilter → (cmd_buf : Option Bytes) → (cmd_len : ℕ) → Exec AtlasFilter
unfolding rule_body install_rule
install_firewall_rule f cmd_buf cmd_len = do
  cmds ← received_commands cmd_buf cmd_len
  r ← for_commands rule_body no_rule cmds
  ok (install_rule f r)

pub client_id_body : Bytes → AtlasCommand → Exec Bytes
client_id_body id cmd = if cmd.type == Types.pub_sub_client_id then value_text cmd else ok id

unfoldable pub remove_rule : AtlasFilter → Bytes → AtlasFilter
remove_rule f id =
    if str_eq id []
    then f
    else record f { rules = erase id f.rules; tx_pkt_stats = erase id f.tx_pkt_stats }

pub remove_firewall_rule : AtlasFilter → (cmd_buf : Option Bytes) → (cmd_len : ℕ) → Exec AtlasFilter
unfolding client_id_body remove_rule
remove_firewall_rule f cmd_buf cmd_len = do
  cmds ← received_commands cmd_buf cmd_len
  id ← for_commands client_id_body [] cmds
  ok (remove_rule f id)

-- The commands of `writeFirewallStats`.
abbrev pub stats_commands :
    (client_id : Bytes)
    → (rule_dropped_pkts rule_passed_pkts tx_dropped_pkts tx_passed_pkts : ℕ) → List AtlasCommand
stats_commands client_id rule_dropped_pkts rule_passed_pkts tx_dropped_pkts tx_passed_pkts =
    atlas_command Types.pub_sub_client_id (length client_id) (some client_id)
    ∷ atlas_command Types.pub_sub_pkt_drop 4 (some (host_bytes32 (htonl rule_dropped_pkts)))
    ∷ atlas_command Types.pub_sub_pkt_pass 4 (some (host_bytes32 (htonl rule_passed_pkts)))
    ∷ atlas_command Types.pub_sub_tx_pkt_drop 4 (some (host_bytes32 (htonl tx_dropped_pkts)))
    ∷ atlas_command Types.pub_sub_tx_pkt_pass 4 (some (host_bytes32 (htonl tx_passed_pkts)))
    ∷ []

abbrev pub write_bytes : AtlasFilter → Option Bytes → AtlasFilter
write_bytes f none = f
write_bytes f (some bytes) = record f { to_gateway = f.to_gateway ++ bytes ∷ [] }

unfoldable pub write_firewall_stats :
    AtlasFilter
    → (client_id : Bytes) → (rule_dropped_pkts rule_passed_pkts tx_dropped_pkts tx_passed_pkts : ℕ)
    → Exec AtlasFilter
write_firewall_stats f client_id rule_dropped_pkts rule_passed_pkts tx_dropped_pkts tx_passed_pkts =
    do
      outer_cmd ← nested_command Types.pub_sub_put_stat_firewall_rule (
          stats_commands client_id rule_dropped_pkts rule_passed_pkts tx_dropped_pkts
            tx_passed_pkts)
      ok (write_bytes f outer_cmd)

abbrev pub or_new : Option AtlasPacketStats → AtlasPacketStats
or_new none = packet_stats
or_new (some s) = s

-- The numbers are read and set to 0. `rules_[clientId]` makes a rule where there is none, whose
-- members are not initialised, so that reading them is undefined.
unfoldable pub read_stats :
    AtlasFilter → Bytes → Option AtlasPacketPolicer → AtlasPacketStats → Exec AtlasFilter
unfolding write_firewall_stats
read_stats f id none s = ub
read_stats f id (some p) s =
    write_firewall_stats
      (record f {
        rules = store id (record p { stat_pkt_drop = 0; stat_pkt_pass = 0 }) f.rules;
        tx_pkt_stats = store id packet_stats f.tx_pkt_stats;
      })
      id p.stat_pkt_drop p.stat_pkt_pass s.dropped_pkts s.passed_pkts

unfoldable pub rule_stats : AtlasFilter → Bytes → Exec AtlasFilter
unfolding read_stats
rule_stats f id =
    if str_eq id []
    then ok f
    else read_stats f id (find id f.rules) (or_new (find id f.tx_pkt_stats))

pub get_firewall_rule_stats :
    AtlasFilter → (cmd_buf : Option Bytes) → (cmd_len : ℕ) → Exec AtlasFilter
unfolding client_id_body rule_stats
get_firewall_rule_stats f cmd_buf cmd_len = do
  cmds ← received_commands cmd_buf cmd_len
  id ← for_commands client_id_body [] cmds
  rule_stats f id

pub command_body : AtlasFilter → AtlasCommand → Exec AtlasFilter
unfolding install_firewall_rule remove_firewall_rule get_firewall_rule_stats
command_body f cmd =
    if cmd.type == Types.pub_sub_install_firewall_rule
    then install_firewall_rule f cmd.val cmd.len
    else if cmd.type == Types.pub_sub_remove_firewall_rule
    then remove_firewall_rule f cmd.val cmd.len
    else if cmd.type == Types.pub_sub_get_stat_firewall_rule
    then get_firewall_rule_stats f cmd.val cmd.len
    else ok f

unfoldable pub process_command :
    AtlasFilter → (cmd_buffer : Option Bytes) → (cmd_len : ℕ) → Exec AtlasFilter
unfolding command_body
process_command f cmd_buffer cmd_len = do
  cmds ← received_commands cmd_buffer cmd_len
  for_commands command_body f cmds

-- `gatewayConnect` removes all rules, and asks for those of the gateway once it is connected.
pub gateway_connect : AtlasFilter → Exec AtlasFilter
gateway_connect f = do
  bytes ← serialized_commands (atlas_command Types.get_all_pub_sub_firewall_rules 0 none ∷ [])
  ok (write_bytes (record f { rules = [] }) bytes)
