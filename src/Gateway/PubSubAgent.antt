-- ===== src/Gateway/PubSubAgent.antt =====
-- atlas_gateway/src/pubsub_agent/AtlasPubSubAgent.cpp: the gateway's end of the plug-in's socket.
pub mod Rules
pub mod Numbers
pub mod Statistics
use resfit.Prelude.{
  ℕ, ◌+◌, ◌%◌, Bool, true, false, ◌&&◌, ◌||◌, not, Option, none, some, List, [], ◌∷◌, ◌++◌, length,
  ◌==◌, if◌then◌else◌, Exec, ok, ◌>>=◌,
}
use resfit.Prelude.Memory.{Bytes, htons, host_bytes}
use resfit.Prelude.Text.{str_eq}
use resfit.Gateway.Types
use resfit.Gateway.Batch.{AtlasCommand, atlas_command, received_commands, nested_command}
use resfit.Gateway.Values.{value_text, value_u32, for_commands}
use resfit.Gateway.Maps.{Dict, find, store}
use resfit.Gateway.State.{
  AtlasFirewallPolicy, AtlasFirewallStats, AtlasDevice, StoredDevice, CloudUpdate, Gateway,
  stats_event, update_device,
}

-- `write`: the bytes are lost if no plug-in is connected
abbrev pub write : Gateway → Option Bytes → Gateway
write g none = g
write g (some []) = g
write g (some (b ∷ bytes)) =
    if g.connected then record g { to_agent = g.to_agent ++ (b ∷ bytes) ∷ [] } else g

abbrev client_id_command : Bytes → AtlasCommand
client_id_command client_id =
    atlas_command Types.pub_sub_client_id (length client_id) (some client_id)

pub get_firewall_rule_stats : Gateway → (client_id : Bytes) → Exec Gateway
get_firewall_rule_stats g client_id = if str_eq client_id [] then ok g else (do
  outer_cmd ← nested_command Types.pub_sub_get_stat_firewall_rule (client_id_command client_id ∷ [])
  ok (write g outer_cmd))

pub remove_firewall_rule : Gateway → (client_id : Bytes) → Exec Gateway
remove_firewall_rule g client_id = if str_eq client_id [] then ok g else (do
  outer_cmd ← nested_command Types.pub_sub_remove_firewall_rule (client_id_command client_id ∷ [])
  ok (write g outer_cmd))

abbrev pub policy_commands : AtlasFirewallPolicy → List AtlasCommand
policy_commands policy =
    client_id_command policy.client_id
    ∷ atlas_command Types.pub_sub_max_qos 2 (some (host_bytes (htons policy.qos)))
    ∷ atlas_command Types.pub_sub_ppm 2 (some (host_bytes (htons policy.ppm)))
    ∷ atlas_command Types.pub_sub_max_payload_len 2 (some (host_bytes (htons policy.payload_len)))
    ∷ []

pub install_firewall_rule : Gateway → (identity : Bytes) → Option AtlasFirewallPolicy → Exec Gateway
install_firewall_rule g identity none = ok g
install_firewall_rule g identity (some policy) = do
  outer ← nested_command Types.pub_sub_install_firewall_rule (policy_commands policy)
  ok (write g outer)

-- `AtlasDeviceManager::installAllPolicies`, for the devices of a list.
pub install_each : Gateway → Dict AtlasDevice → Exec Gateway
unfolding install_firewall_rule
install_each g [] = ok g
install_each g ((id, d) ∷ devices) =
    install_firewall_rule g d.identity d.policy >>= λ g. install_each g devices

pub get_all_firewall_rules : Gateway → Exec Gateway
unfolding install_each
get_all_firewall_rules g = install_each g g.devices

-- The device that `getDevice` makes of what the database has.
abbrev pub no_stats : Bytes → AtlasFirewallStats
no_stats id = record {
  client_id = id;
  rule_dropped_pkts = 0;
  rule_passed_pkts = 0;
  tx_dropped_pkts = 0;
  tx_passed_pkts = 0;
}

abbrev saved_stats : Bytes → Option AtlasFirewallStats → AtlasFirewallStats
saved_stats id none = no_stats id
saved_stats id (some s) = record s { client_id = id }

abbrev pub new_device : Bytes → StoredDevice → AtlasDevice
new_device id saved = record {
  identity = id;
  ip_port = [];
  registered = false;
  ka_ctr = none;
  keep_alive_pkts = 0;
  policy = none;
  stats = saved_stats id saved.stats;
}

abbrev from_database : Gateway → Bytes → Option StoredDevice → Gateway × Option AtlasDevice
from_database g id none = (g, none)
from_database g id (some saved) = if str_eq saved.psk [] then (g, none) else (
  record g { devices = store id (new_device id saved) g.devices },
  some (new_device id saved),
)

abbrev pub in_memory : Gateway → Bytes → Option AtlasDevice → Gateway × Option AtlasDevice
in_memory g id none = from_database g id (find id g.database)
in_memory g id (some d) = (g, some d)

-- `AtlasDeviceManager::getDevice`, less the reputation and the commands of the device
unfoldable pub get_device : Gateway → (identity : Bytes) → Gateway × Option AtlasDevice
get_device g identity = in_memory g identity (find identity g.devices)

-- A device changed through the pointer that `getDevice` returned.
abbrev pub put_device : Bytes → AtlasDevice → Gateway → Gateway
put_device identity d g = record g { devices = store identity d g.devices }

-- Numbers of type uint32_t are added.
abbrev add_u32 : ℕ → ℕ → ℕ
add_u32 a b = (a + b) % 4294967296

abbrev pub add_stats : AtlasFirewallStats → AtlasFirewallStats → AtlasFirewallStats
add_stats s t = record s {
  rule_dropped_pkts = add_u32 s.rule_dropped_pkts t.rule_dropped_pkts;
  rule_passed_pkts = add_u32 s.rule_passed_pkts t.rule_passed_pkts;
  tx_dropped_pkts = add_u32 s.tx_dropped_pkts t.tx_dropped_pkts;
  tx_passed_pkts = add_u32 s.tx_passed_pkts t.tx_passed_pkts;
}

-- `AtlasDeviceManager::updateFirewallStats`; what the database saves is not read again while the
-- device is in memory
abbrev pub stats_found : AtlasFirewallStats → Gateway × Option AtlasDevice → Gateway
stats_found t (g, none) = g
stats_found t (g, some d) =
    let s = add_stats d.stats t in
    update_device d.identity (stats_event s) (put_device t.client_id (record d { stats = s }) g)

pub update_firewall_stats : Gateway → AtlasFirewallStats → Gateway
unfolding get_device
update_firewall_stats g t = stats_found t (get_device g t.client_id)

-- What `processFirewallRuleStat` has read so far.
pub record RuleStat : Type 0 where
  pub client_id : Bytes
  pub rule_dropped_pkts : Option ℕ
  pub rule_passed_pkts : Option ℕ
  pub tx_dropped_pkts : Option ℕ
  pub tx_passed_pkts : Option ℕ

abbrev pub no_rule_stat : RuleStat
no_rule_stat = record {
  client_id = [];
  rule_dropped_pkts = none;
  rule_passed_pkts = none;
  tx_dropped_pkts = none;
  tx_passed_pkts = none;
}

pub rule_stat_body : RuleStat → AtlasCommand → Exec RuleStat
rule_stat_body r cmd =
    if cmd.type == Types.pub_sub_client_id
    then (do id ← value_text cmd; ok (record r { client_id = id }))
    else if (cmd.type == Types.pub_sub_pkt_drop) && (cmd.len == 4)
    then (do x ← value_u32 cmd; ok (record r { rule_dropped_pkts = some x }))
    else if (cmd.type == Types.pub_sub_pkt_pass) && (cmd.len == 4)
    then (do x ← value_u32 cmd; ok (record r { rule_passed_pkts = some x }))
    else if (cmd.type == Types.pub_sub_tx_pkt_drop) && (cmd.len == 4)
    then (do x ← value_u32 cmd; ok (record r { tx_dropped_pkts = some x }))
    else if (cmd.type == Types.pub_sub_tx_pkt_pass) && (cmd.len == 4)
    then (do x ← value_u32 cmd; ok (record r { tx_passed_pkts = some x }))
    else ok r

-- Numbers that are all 0 are not passed on.
abbrev is_zero : ℕ → Bool
is_zero n = n == 0

abbrev stat_found : Gateway → Bytes → (a b c d : Option ℕ) → Gateway
stat_found g id (some a) (some b) (some c) (some d) =
    if not (is_zero a) || (not (is_zero b) || (not (is_zero c) || not (is_zero d)))
    then update_firewall_stats g (
        add_stats (no_stats id) (record {
          client_id = id;
          rule_dropped_pkts = a;
          rule_passed_pkts = b;
          tx_dropped_pkts = c;
          tx_passed_pkts = d;
        }))
    else g
stat_found g id _ _ _ _ = g

pub rule_stat_read : Gateway → RuleStat → Gateway
unfolding update_firewall_stats
rule_stat_read g r =
    if str_eq r.client_id []
    then g
    else stat_found g r.client_id r.rule_dropped_pkts r.rule_passed_pkts r.tx_dropped_pkts
        r.tx_passed_pkts

pub process_firewall_rule_stat : Gateway → (cmd_buf : Option Bytes) → (cmd_len : ℕ) → Exec Gateway
unfolding rule_stat_body rule_stat_read
process_firewall_rule_stat g none cmd_len = ok g
process_firewall_rule_stat g (some cmd_buf) cmd_len = if cmd_len == 0 then ok g else (do
  cmds ← received_commands (some cmd_buf) cmd_len
  r ← for_commands rule_stat_body no_rule_stat cmds
  ok (rule_stat_read g r))

pub agent_body : Gateway → AtlasCommand → Exec Gateway
unfolding get_all_firewall_rules process_firewall_rule_stat
agent_body g cmd =
    if cmd.type == Types.get_all_pub_sub_firewall_rules
    then get_all_firewall_rules g
    else if cmd.type == Types.pub_sub_put_stat_firewall_rule
    then process_firewall_rule_stat g cmd.val cmd.len
    else ok g

pub process_command : Gateway → (cmd_buffer : Option Bytes) → (cmd_len : ℕ) → Exec Gateway
unfolding agent_body
process_command g cmd_buffer cmd_len = do
  cmds ← received_commands cmd_buffer cmd_len
  for_commands agent_body g cmds
