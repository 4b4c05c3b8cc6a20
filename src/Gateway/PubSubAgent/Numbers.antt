-- ===== src/Gateway/PubSubAgent/Numbers.antt =====
-- The message with the statistics of a rule: the plug-in writes four numbers, and the gateway
-- reads them.
use resfit.Prelude.{
  ℕ, ◌≤◌, ◌<◌, ◌≡◌, ap, ◌∙◌, false, some, List, [], ◌∷◌, map, arith, length, length-append, ◌==◌,
  cond_false, ok, ◌>>=◌,
}
use resfit.Prelude.Memory.{Bytes, u16}
use resfit.Command.Frame.{Frame, frame, AllFrames, encode}
use resfit.Gateway.Types
use resfit.Gateway.Batch.{AtlasCommand, atlas_command, nested_command}
use resfit.Gateway.Batch.Writing.{command_of, nested_command-encode}
use resfit.Gateway.Batch.Parsing.{received_commands-encode}
use resfit.Gateway.Values.{
  host_bytes32-htonl, be32, for_commands, value_text-command_of, value_u32-be32,
}
use resfit.Gateway.State.{Gateway}
use resfit.Gateway.PubSubAgent.{
  rule_stat_body, no_rule_stat, rule_stat_read, process_firewall_rule_stat, agent_body,
  process_command, RuleStat,
}
use resfit.Gateway.Filter.{AtlasFilter, stats_commands, write_firewall_stats, write_bytes}
use resfit.Gateway.Filter.Commands.{
  id_frame, id_IsFrame, around, around-IsFrame, received_inside, bind_ok,
}

-- The four numbers that a message carries.
pub record Counts : Type 0 where
  pub rule_dropped : ℕ
  pub rule_passed : ℕ
  pub tx_dropped : ℕ
  pub tx_passed : ℕ

pub record CountsFit (n : Counts) : Type 0 where
  pub rule_dropped_fits : n.rule_dropped < 4294967296
  pub rule_passed_fits : n.rule_passed < 4294967296
  pub tx_dropped_fits : n.tx_dropped < 4294967296
  pub tx_passed_fits : n.tx_passed < 4294967296

abbrev number_frames : Counts → List Frame
number_frames n =
    frame Types.pub_sub_pkt_drop (be32 n.rule_dropped)
    ∷ frame Types.pub_sub_pkt_pass (be32 n.rule_passed)
    ∷ frame Types.pub_sub_tx_pkt_drop (be32 n.tx_dropped)
    ∷ frame Types.pub_sub_tx_pkt_pass (be32 n.tx_passed)
    ∷ []

abbrev stats_frames : Bytes → Counts → List Frame
stats_frames id n = id_frame id ∷ number_frames n

abbrev pub stats_bytes : Bytes → Counts → Bytes
stats_bytes id n = encode (around Types.pub_sub_put_stat_firewall_rule (stats_frames id n) ∷ [])

stats_frames-AllFrames : (id : Bytes) (n : Counts) → length id ≤ 64 → AllFrames (stats_frames id n)
stats_frames-AllFrames id n h = (
  id_IsFrame Types.pub_sub_client_id id (omega arith) h,
  (
    record { type_fits = omega arith; value_fits = omega arith },
    (
      record { type_fits = omega arith; value_fits = omega arith },
      (
        record { type_fits = omega arith; value_fits = omega arith },
        (record { type_fits = omega arith; value_fits = omega arith }, tt),
      ),
    ),
  ),
)

stats_frames-length :
    (id : Bytes) (n : Counts) → length id ≤ 64 → length (encode (stats_frames id n)) < 65536
stats_frames-length id n h = omega (arith, length-append id (encode (number_frames n)))

stats_commands-frames :
    (id : Bytes) (n : Counts)
    → CountsFit n
    → stats_commands id n.rule_dropped n.rule_passed n.tx_dropped n.tx_passed
      ≡ map command_of (stats_frames id n)
stats_commands-frames id n h =
    let numbers : Bytes → Bytes → Bytes → Bytes → List AtlasCommand = λ a b c d.
      command_of (id_frame id)
      ∷ atlas_command Types.pub_sub_pkt_drop 4 (some a)
      ∷ atlas_command Types.pub_sub_pkt_pass 4 (some b)
      ∷ atlas_command Types.pub_sub_tx_pkt_drop 4 (some c)
      ∷ atlas_command Types.pub_sub_tx_pkt_pass 4 (some d)
      ∷ [] in
    λ i.
      numbers (host_bytes32-htonl n.rule_dropped h.rule_dropped_fits i)
        (host_bytes32-htonl n.rule_passed h.rule_passed_fits i)
        (host_bytes32-htonl n.tx_dropped h.tx_dropped_fits i)
        (host_bytes32-htonl n.tx_passed h.tx_passed_fits i)

-- The plug-in writes the numbers.
pub write_firewall_stats_lem :
    (f : AtlasFilter) (id : Bytes) (n : Counts)
    → CountsFit n
    → length id ≤ 64
    → write_firewall_stats f id n.rule_dropped n.rule_passed n.tx_dropped n.tx_passed
      ≡ ok (write_bytes f (some (stats_bytes id n)))
unfolding write_firewall_stats
write_firewall_stats_lem f id n h short =
    ap
      (λ cmds.
        nested_command Types.pub_sub_put_stat_firewall_rule cmds >>= λ o. ok (write_bytes f o))
      (stats_commands-frames id n h)
    ∙ ap (λ m. m >>= λ o. ok (write_bytes f o))
        (nested_command-encode Types.pub_sub_put_stat_firewall_rule (id_frame id) (number_frames n)
          (omega arith) (stats_frames-AllFrames id n short) (stats_frames-length id n short))

-- What the gateway reads.
abbrev pub read_of : Bytes → Counts → RuleStat
read_of id n = record {
  client_id = id;
  rule_dropped_pkts = some n.rule_dropped;
  rule_passed_pkts = some n.rule_passed;
  tx_dropped_pkts = some n.tx_dropped;
  tx_passed_pkts = some n.tx_passed;
}

stats_read :
    (id : Bytes) (n : Counts)
    → CountsFit n
    → length id ≤ 64
    → for_commands rule_stat_body no_rule_stat (map command_of (stats_frames id n))
      ≡ ok (read_of id n)
unfolding rule_stat_body
stats_read id n h short = rw (
  value_text-command_of (id_frame id) (id_IsFrame Types.pub_sub_client_id id (omega arith) short),
  value_u32-be32 Types.pub_sub_pkt_drop n.rule_dropped h.rule_dropped_fits,
  value_u32-be32 Types.pub_sub_pkt_pass n.rule_passed h.rule_passed_fits,
  value_u32-be32 Types.pub_sub_tx_pkt_drop n.tx_dropped h.tx_dropped_fits,
  value_u32-be32 Types.pub_sub_tx_pkt_pass n.tx_passed h.tx_passed_fits,
)

pub process_command-stats :
    (g : Gateway) (id : Bytes) (n : Counts)
    → CountsFit n
    → length id ≤ 64
    → process_command g (some (stats_bytes id n)) (length (stats_bytes id n))
      ≡ ok (rule_stat_read g (read_of id n))
unfolding process_command agent_body process_firewall_rule_stat
process_command-stats g id n h short =
    let inner : Bytes = encode (stats_frames id n) in
    let full : (u16 (length inner) == 0) ≡ false = ground (arith, stats_frames-length id n short) in
    ap (λ m. m >>= for_commands agent_body g)
      (received_commands-encode (around Types.pub_sub_put_stat_firewall_rule (stats_frames id n)) []
        (
          around-IsFrame Types.pub_sub_put_stat_firewall_rule (stats_frames id n) (omega arith)
              (stats_frames-length id n short),
          tt,
        ))
    ∙ bind_ok _
    ∙ cond_false _ _ full
    ∙ ap
        (λ m. m >>= λ cmds.
          for_commands rule_stat_body no_rule_stat cmds >>= λ r. ok (rule_stat_read g r))
        (received_inside (id_frame id) (number_frames n) (stats_frames-AllFrames id n short)
          (stats_frames-length id n short))
    ∙ ap (λ m. m >>= λ r. ok (rule_stat_read g r)) (stats_read id n h short)
