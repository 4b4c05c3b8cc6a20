-- ===== src/Gateway/PubSubAgent/Statistics.antt =====
-- The statistics of a rule, from the firewall to the device.
use resfit.Prelude.{
  ℕ, ◌+◌, ◌%◌, ◌≤◌, ◌<◌, ◌≡◌, ◌≢◌, refl, sym, ap, ◌∙◌, Bool, true, false, ◌||◌, not, some, [], ◌∷◌,
  ◌++◌, arith, length, ◌==◌, Bool-cases, inl, inr, cond_true, cond_false, ok, ◌>>=◌,
}
use resfit.Prelude.Memory.{Bytes}
use resfit.Prelude.Text.{text_differs}
use resfit.Command.Frame.{encode}
use resfit.Gateway.Types
use resfit.Gateway.Batch.Writing.{nested_command-encode}
use resfit.Gateway.Maps.{find, store, find-stored}
use resfit.Gateway.State.{AtlasFirewallStats, AtlasDevice, Gateway}
use resfit.Gateway.PubSubAgent.{
  write, get_device, get_firewall_rule_stats, rule_stat_read, process_command, add_stats,
  update_firewall_stats, no_stats, in_memory, stats_found,
}
use resfit.Gateway.PubSubAgent.Rules.{sent}
use resfit.Gateway.Filter
use resfit.Gateway.Filter.{
  AtlasFilter, AtlasPacketPolicer, AtlasPacketStats, packet_stats, or_new, rule_stats,
  stats_commands, write_firewall_stats, write_bytes, read_stats,
}
use resfit.Gateway.Filter.Commands.{
  id_frame, id_IsFrame, around, id_frames-length, process_command-get_stats,
}
use resfit.Gateway.PubSubAgent.Numbers.{
  Counts, CountsFit, stats_bytes, read_of, write_firewall_stats_lem, process_command-stats,
}

-- What the gateway knows of a device after the numbers have arrived.
abbrev pub counted : AtlasFirewallStats → Counts → AtlasFirewallStats
counted s n = record s {
  rule_dropped_pkts = (s.rule_dropped_pkts + n.rule_dropped) % 4294967296;
  rule_passed_pkts = (s.rule_passed_pkts + n.rule_passed) % 4294967296;
  tx_dropped_pkts = (s.tx_dropped_pkts + n.tx_dropped) % 4294967296;
  tx_passed_pkts = (s.tx_passed_pkts + n.tx_passed) % 4294967296;
}

pub record StatsFit (s : AtlasFirewallStats) : Type 0 where
  pub rule_dropped_fits : s.rule_dropped_pkts < 4294967296
  pub rule_passed_fits : s.rule_passed_pkts < 4294967296
  pub tx_dropped_fits : s.tx_dropped_pkts < 4294967296
  pub tx_passed_fits : s.tx_passed_pkts < 4294967296

-- The numbers that the plug-in has of a client with the rule `p`.
abbrev pub counts_of : AtlasFilter → Bytes → AtlasPacketPolicer → Counts
counts_of f id p =
    let s = or_new (find id f.tx_pkt_stats) in
    record {
      rule_dropped = p.stat_pkt_drop;
      rule_passed = p.stat_pkt_pass;
      tx_dropped = s.dropped_pkts;
      tx_passed = s.passed_pkts;
    }

-- The plug-in once it has answered.
abbrev reset : AtlasFilter → Bytes → AtlasPacketPolicer → AtlasFilter
reset f id p = record f {
  rules = store id (record p { stat_pkt_drop = 0; stat_pkt_pass = 0 }) f.rules;
  tx_pkt_stats = store id packet_stats f.tx_pkt_stats;
}

abbrev request_bytes : Bytes → Bytes
request_bytes id = encode (around Types.pub_sub_get_stat_firewall_rule (id_frame id ∷ []) ∷ [])

get_firewall_rule_stats_lem :
    (g : Gateway) (id : Bytes)
    → length id ≤ 64
    → id ≢ []
    → g.connected ≡ true
    → get_firewall_rule_stats g id ≡ ok (sent (request_bytes id) g)
unfolding get_firewall_rule_stats
get_firewall_rule_stats_lem g id h ne up =
    cond_false _ _ (text_differs id [] ne)
    ∙ ap (λ m. m >>= λ outer. ok (write g outer))
        (nested_command-encode Types.pub_sub_get_stat_firewall_rule (id_frame id) [] (omega arith)
          (id_IsFrame Types.pub_sub_client_id id (omega arith) h, tt) (id_frames-length id h))
    ∙ ap ok (cond_true _ _ up)

request-answered :
    (f : AtlasFilter) (id : Bytes) (p : AtlasPacketPolicer)
    → length id ≤ 64
    → id ≢ []
    → find id f.rules ≡ some p
    → CountsFit (counts_of f id p)
    → Filter.process_command f (some (request_bytes id)) (length (request_bytes id))
      ≡ ok (write_bytes (reset f id p) (some (stats_bytes id (counts_of f id p))))
unfolding rule_stats read_stats
request-answered f id p h ne has fit =
    process_command-get_stats f id h
    ∙ cond_false _ _ (text_differs id [] ne)
    ∙ ap (λ r. read_stats f id r (or_new (find id f.tx_pkt_stats))) has
    ∙ write_firewall_stats_lem (reset f id p) id (counts_of f id p) fit h

-- The statistics that are handed to `updateFirewallStats`, which start from 0.
abbrev passed_on : Bytes → Counts → AtlasFirewallStats
passed_on id n = counted (no_stats id) n

from_zero : (a : ℕ) → a < 4294967296 → (0 + a) % 4294967296 ≡ a
from_zero a h = omega arith

with_zero : (a : ℕ) → a < 4294967296 → (a + 0) % 4294967296 ≡ a
with_zero a h = omega arith

added :
    (s : AtlasFirewallStats) (id : Bytes) (n : Counts)
    → CountsFit n
    → add_stats s (passed_on id n) ≡ counted s n
added s id n fit = λ i. counted s (record {
  rule_dropped = from_zero n.rule_dropped fit.rule_dropped_fits i;
  rule_passed = from_zero n.rule_passed fit.rule_passed_fits i;
  tx_dropped = from_zero n.tx_dropped fit.tx_dropped_fits i;
  tx_passed = from_zero n.tx_passed fit.tx_passed_fits i;
})

-- Numbers that are all 0 change nothing.
counted-zero :
    (s : AtlasFirewallStats)
    → StatsFit s
    → counted s (record { rule_dropped = 0; rule_passed = 0; tx_dropped = 0; tx_passed = 0 }) ≡ s
counted-zero s fit = λ i. record s {
  rule_dropped_pkts = with_zero s.rule_dropped_pkts fit.rule_dropped_fits i;
  rule_passed_pkts = with_zero s.rule_passed_pkts fit.rule_passed_fits i;
  tx_dropped_pkts = with_zero s.tx_dropped_pkts fit.tx_dropped_fits i;
  tx_passed_pkts = with_zero s.tx_passed_pkts fit.tx_passed_fits i;
}

abbrev any_set : Counts → Bool
any_set n =
    not (n.rule_dropped == 0)
    || (not (n.rule_passed == 0) || (not (n.tx_dropped == 0) || not (n.tx_passed == 0)))

none_set :
    (n : Counts)
    → any_set n ≡ false
    → n ≡ record { rule_dropped = 0; rule_passed = 0; tx_dropped = 0; tx_passed = 0 }
none_set n e =
    let a : n.rule_dropped ≡ 0 = ground (arith, e) in
    let b : n.rule_passed ≡ 0 = ground (arith, e) in
    let c : n.tx_dropped ≡ 0 = ground (arith, e) in
    let d : n.tx_passed ≡ 0 = ground (arith, e) in
    λ i. record { rule_dropped = a i; rule_passed = b i; tx_dropped = c i; tx_passed = d i }

rule_stat_read_lem :
    (g : Gateway) (d : AtlasDevice) (id : Bytes) (n : Counts)
    → CountsFit n
    → StatsFit d.stats
    → id ≢ []
    → find id g.devices ≡ some d
    → find id (rule_stat_read g (read_of id n)).devices
      ≡ some (record d { stats = counted d.stats n })
unfolding rule_stat_read update_firewall_stats get_device
rule_stat_read_lem g d id n fit dfit ne has =
    ap (λ (g : Gateway). find id g.devices) (cond_false _ _ (text_differs id [] ne))
    ∙ elim (Bool-cases (any_set n)) [
      | inl e ↦
          ap (λ (g : Gateway). find id g.devices)
            (cond_true _ _ e ∙ ap (λ o. stats_found (passed_on id n) (in_memory g id o)) has)
          ∙ find-stored id (record d { stats = add_stats d.stats (passed_on id n) }) g.devices
          ∙ ap (λ s. some (record d { stats = s })) (added d.stats id n fit)
      | inr e ↦
          ap (λ (g : Gateway). find id g.devices) (cond_false _ _ e)
          ∙ has
          ∙ ap (λ s. some (record d { stats = s }))
              (sym (ap (counted d.stats) (none_set n e) ∙ counted-zero d.stats dfit))
    ]

-- The statistics of a rule reach the device. For a client id of one to 64 bytes with a rule in the
-- firewall and a device at the gateway, where the plug-in is connected and all numbers fit 32 bits:
-- the gateway's request makes the plug-in write its four numbers and start the rule and the client's
-- traffic from 0, and what it wrote, taken by the gateway, adds the numbers to those of the device
-- modulo 2^32.
pub get_firewall_rule_stats-process_command :
    (g : Gateway) (f : AtlasFilter) (d : AtlasDevice) (p : AtlasPacketPolicer) (id : Bytes)
    → length id ≤ 64
    → id ≢ []
    → g.connected ≡ true
    → find id f.rules ≡ some p
    → CountsFit (counts_of f id p)
    → find id g.devices ≡ some d
    → StatsFit d.stats
    → (request : Bytes) × (answer : Bytes) × (f' : AtlasFilter) × (g' : Gateway)
      × (get_firewall_rule_stats g id ≡ ok (sent request g))
      × (Filter.process_command f (some request) (length request) ≡ ok f')
      × (f'.to_gateway ≡ f.to_gateway ++ answer ∷ [])
      × (find id f'.rules ≡ some (record p { stat_pkt_drop = 0; stat_pkt_pass = 0 }))
      × (find id f'.tx_pkt_stats ≡ some packet_stats)
      × (process_command (sent request g) (some answer) (length answer) ≡ ok g')
      × (find id g'.devices ≡ some (record d { stats = counted d.stats (counts_of f id p) }))
get_firewall_rule_stats-process_command g f d p id h ne up has fit known dfit =
    let n : Counts = counts_of f id p in
    (
      request_bytes id,
      stats_bytes id n,
      write_bytes (reset f id p) (some (stats_bytes id n)),
      rule_stat_read (sent (request_bytes id) g) (read_of id n),
      get_firewall_rule_stats_lem g id h ne up,
      request-answered f id p h ne has fit,
      refl,
      find-stored id _ f.rules,
      find-stored id _ f.tx_pkt_stats,
      process_command-stats (sent (request_bytes id) g) id n fit h,
      rule_stat_read_lem (sent (request_bytes id) g) d id n fit dfit ne known,
    )
