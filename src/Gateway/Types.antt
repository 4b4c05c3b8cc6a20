-- ===== src/Gateway/Types.antt =====
-- atlas_gateway/src/commands/AtlasCommandType.h: the types that the gateway gives commands.
use resfit.Prelude.{ℕ}

abbrev pub register : ℕ
register = 0

abbrev pub keepalive : ℕ
keepalive = 1

abbrev pub identity : ℕ
identity = 2

abbrev pub ip_port : ℕ
ip_port = 3

abbrev pub get_all_pub_sub_firewall_rules : ℕ
get_all_pub_sub_firewall_rules = 1000

abbrev pub pub_sub_install_firewall_rule : ℕ
pub_sub_install_firewall_rule = 1001

abbrev pub pub_sub_remove_firewall_rule : ℕ
pub_sub_remove_firewall_rule = 1002

abbrev pub pub_sub_get_stat_firewall_rule : ℕ
pub_sub_get_stat_firewall_rule = 1003

abbrev pub pub_sub_put_stat_firewall_rule : ℕ
pub_sub_put_stat_firewall_rule = 1004

abbrev pub pub_sub_client_id : ℕ
pub_sub_client_id = 1005

abbrev pub pub_sub_max_qos : ℕ
pub_sub_max_qos = 1006

abbrev pub pub_sub_ppm : ℕ
pub_sub_ppm = 1007

abbrev pub pub_sub_max_payload_len : ℕ
pub_sub_max_payload_len = 1008

abbrev pub pub_sub_pkt_drop : ℕ
pub_sub_pkt_drop = 1009

abbrev pub pub_sub_pkt_pass : ℕ
pub_sub_pkt_pass = 1010

abbrev pub pub_sub_tx_pkt_drop : ℕ
pub_sub_tx_pkt_drop = 1011

abbrev pub pub_sub_tx_pkt_pass : ℕ
pub_sub_tx_pkt_pass = 1012

abbrev pub data_plane_policy_max_qos : ℕ
data_plane_policy_max_qos = 1100

abbrev pub data_plane_policy_packets_per_minute : ℕ
data_plane_policy_packets_per_minute = 1101

abbrev pub data_plane_policy_packets_maxlen : ℕ
data_plane_policy_packets_maxlen = 1102
