-- ===== src/Gateway/Filter/Limits.antt =====
-- What the rules of the firewall let through.
use resfit.Prelude.{
  ℕ, ◌+◌, ◌-◌, ◌≤◌, ◌<◌, ◌≡◌, ◌↔◌, inl, inr, refl, sym, ap, ◌∙◌, Bool, true, false, ◌&&◌, Option,
  none, some, List, [], ◌∷◌, arith, length, Bool-cases, Option-cases, cond_true, cond_false,
}
use resfit.Prelude.Memory.{Bytes}
use resfit.Prelude.Text.{str_eq, str_eq_iff}
use resfit.Gateway.Maps.{find, store, find-store}
use resfit.Gateway.Filter.{
  AtlasPacket, AtlasPacketPolicer, AtlasFilter, policer_filter, filter, with_rule, count_tx,
}

-- The three tests of a rule, the last against the packets of the window, this one included.
abbrev pub Allowed : AtlasPacketPolicer → AtlasPacket → Type 0
Allowed p pkt =
    (pkt.qos ≤ p.max_qos) × (pkt.payload_len ≤ p.max_payload_len) × (p.window_ppm < p.ppm)

policer_filter-Allowed :
    (p : AtlasPacketPolicer) (pkt : AtlasPacket)
    → p.window_ppm < 4294967295
    → ((policer_filter p pkt).1 ≡ true) ↔ Allowed p pkt
unfolding policer_filter
policer_filter-Allowed p pkt small = (λ h. ground arith, λ h. ground arith)

-- A packet counts in the window whether it passes or not.
policer_filter-window :
    (p : AtlasPacketPolicer) (pkt : AtlasPacket)
    → p.window_ppm < 4294967295
    → ((policer_filter p pkt).0.window_ppm ≡ p.window_ppm + 1)
      × ((policer_filter p pkt).0.ppm ≡ p.ppm)
unfolding policer_filter
policer_filter-window p pkt small = ground arith

count_tx-rules :
    (f : AtlasFilter) (src : Option Bytes) (b : Bool) → (count_tx f src b).rules ≡ f.rules
count_tx-rules f none b = refl
count_tx-rules f (some src) b = elim (Option-cases (find src f.tx_pkt_stats)) [
  | inl e ↦ rw e
  | inr (s, e) ↦ rw e
]

-- The rule of the destination decides, and no other rule changes.
filter_ruled :
    (f : AtlasFilter) (pkt : AtlasPacket) (p : AtlasPacketPolicer)
    → find pkt.dst_client_id f.rules ≡ some p
    → ((filter f pkt).1 ≡ (policer_filter p pkt).1)
      × ((filter f pkt).0.rules ≡ store pkt.dst_client_id (policer_filter p pkt).0 f.rules)
unfolding filter
filter_ruled f pkt p e = (
  ap (λ o. (with_rule f pkt.dst_client_id pkt o).1) e,
  count_tx-rules _ pkt.src_client_id _ ∙ ap (λ o. (with_rule f pkt.dst_client_id pkt o).0.rules) e,
)

pub filter_free :
    (f : AtlasFilter) (pkt : AtlasPacket)
    → find pkt.dst_client_id f.rules ≡ none
    → ((filter f pkt).1 ≡ true) × ((filter f pkt).0.rules ≡ f.rules)
unfolding filter
filter_free f pkt e = (
  ap (λ o. (with_rule f pkt.dst_client_id pkt o).1) e,
  count_tx-rules _ pkt.src_client_id _ ∙ ap (λ o. (with_rule f pkt.dst_client_id pkt o).0.rules) e,
)

-- Fewer packets were counted than a uint32_t can count.
abbrev pub Counts : Option AtlasPacketPolicer → Type 0
Counts none = Unit {0}
Counts (some p) = p.window_ppm < 4294967295

abbrev pub Verdict : Option AtlasPacketPolicer → AtlasPacket → Bool → Type 0
Verdict none pkt passes = passes ≡ true
Verdict (some p) pkt passes = (passes ≡ true) ↔ Allowed p pkt

-- A packet to a client without a rule passes. If there is a rule, whose window has not counted
-- 2^32 - 1 packets, it passes exactly if its QoS and its length are at most those of the rule and
-- the packets to the client that the window has counted before are fewer than the rule allows.
pub filter_lem :
    (f : AtlasFilter) (pkt : AtlasPacket)
    → Counts (find pkt.dst_client_id f.rules)
    → Verdict (find pkt.dst_client_id f.rules) pkt (filter f pkt).1
filter_lem f pkt counts = either (find pkt.dst_client_id f.rules) refl counts
  where
    either :
        (o : Option AtlasPacketPolicer)
        → find pkt.dst_client_id f.rules ≡ o
        → Counts o
        → Verdict o pkt (filter f pkt).1
    either none e c = (filter_free f pkt e).0
    either (some p) e c =
        let same : (filter f pkt).1 ≡ (policer_filter p pkt).1 = (filter_ruled f pkt p e).0 in
        let rule = policer_filter-Allowed p pkt c in
        (λ h. rule.0 (sym same ∙ h), λ h. same ∙ rule.1 h)

-- The filter over packets in order.
abbrev pub filter_all : AtlasFilter → List AtlasPacket → AtlasFilter
filter_all f [] = f
filter_all f (pkt ∷ pkts) = filter_all (filter f pkt).0 pkts

-- How many of the packets are sent to a client, and how many of those pass.
abbrev one_if : Bool → ℕ
one_if true = 1
one_if false = 0

abbrev pub sent_to : Bytes → List AtlasPacket → ℕ
sent_to d [] = 0
sent_to d (pkt ∷ pkts) = one_if (str_eq pkt.dst_client_id d) + sent_to d pkts

abbrev pub passed_to : Bytes → AtlasFilter → List AtlasPacket → ℕ
passed_to d f [] = 0
passed_to d f (pkt ∷ pkts) =
    one_if (str_eq pkt.dst_client_id d && (filter f pkt).1) + passed_to d (filter f pkt).0 pkts

one_if_le : (b : Bool) → one_if b ≤ 1
one_if_le true = omega arith
one_if_le false = omega arith

-- Packets to others leave a rule alone.
pub filter-other :
    (d : Bytes) (f : AtlasFilter) (pkt : AtlasPacket)
    → str_eq pkt.dst_client_id d ≡ false
    → find d (filter f pkt).0.rules ≡ find d f.rules
filter-other d f pkt ne = elim (Option-cases (find pkt.dst_client_id f.rules)) [
  | inl e ↦ ap (find d) (filter_free f pkt e).1
  | inr (q, e) ↦
      ap (find d) (filter_ruled f pkt q e).1
      ∙ find-store d pkt.dst_client_id (policer_filter q pkt).0 f.rules
      ∙ cond_false _ _ ne
]

-- A packet to the client leaves the rule as the policer does.
pub filter_self :
    (d : Bytes) (f : AtlasFilter) (pkt : AtlasPacket) (p : AtlasPacketPolicer)
    → find d f.rules ≡ some p
    → str_eq pkt.dst_client_id d ≡ true
    → (find d (filter f pkt).0.rules ≡ some (policer_filter p pkt).0)
      × ((filter f pkt).1 ≡ (policer_filter p pkt).1)
filter_self d f pkt p e eq =
    let same : pkt.dst_client_id ≡ d = (str_eq_iff pkt.dst_client_id d).0 eq in
    let ruled = filter_ruled f pkt p (ap (λ k. find k f.rules) same ∙ e) in
    (
      ap (find d) ruled.1
          ∙ find-store d pkt.dst_client_id (policer_filter p pkt).0 f.rules
          ∙ cond_true _ _ eq,
      ruled.0,
    )

-- One packet, as the rule of `d` sees it.
abbrev Stepped : Bytes → AtlasFilter → AtlasPacket → AtlasPacketPolicer → Type 0
Stepped d f pkt p =
    (p' : AtlasPacketPolicer) × (find d (filter f pkt).0.rules ≡ some p')
    × (p'.window_ppm ≡ p.window_ppm + one_if (str_eq pkt.dst_client_id d))
    × (p'.ppm ≡ p.ppm)
    × (one_if (str_eq pkt.dst_client_id d && (filter f pkt).1) + (p.ppm - p'.window_ppm)
        ≤ p.ppm - p.window_ppm)

policer_step :
    (p : AtlasPacketPolicer) (pkt : AtlasPacket)
    → p.window_ppm < 4294967295
    → one_if (policer_filter p pkt).1 + (p.ppm - (policer_filter p pkt).0.window_ppm)
      ≤ p.ppm - p.window_ppm
unfolding policer_filter
policer_step p pkt small = ground arith

packet_step :
    (d : Bytes) (f : AtlasFilter) (pkt : AtlasPacket) (p : AtlasPacketPolicer)
    → find d f.rules ≡ some p
    → p.window_ppm < 4294967295
    → Stepped d f pkt p
packet_step d f pkt p e small = elim (Bool-cases (str_eq pkt.dst_client_id d)) [
  | inl eq ↦
      let (found, verdict) = filter_self d f pkt p e eq in
      let (window, ppm) = policer_filter-window p pkt small in
      (
        (policer_filter p pkt).0,
        found,
        rw eq window,
        ppm,
        rw (eq, verdict) (policer_step p pkt small),
      )
  | inr ne ↦ (p, filter-other d f pkt ne ∙ e, rw ne (omega arith), refl, rw ne (omega arith))
]

-- While no new window starts, no more packets pass to a client than its rule still allows, however
-- the packets to it and to other clients are mixed. The window has counted each of them, and the
-- limit stands. The count of the window and the number of all packets, those to other clients
-- included, must be below 2^32 together.
pub passed_to_bound :
    (d : Bytes) (f : AtlasFilter) (pkts : List AtlasPacket) (p : AtlasPacketPolicer)
    → find d f.rules ≡ some p
    → p.window_ppm + length pkts < 4294967296
    → (passed_to d f pkts ≤ p.ppm - p.window_ppm)
      × ((p' : AtlasPacketPolicer) × (find d (filter_all f pkts).rules ≡ some p')
          × (p'.window_ppm ≡ p.window_ppm + sent_to d pkts)
          × (p'.ppm ≡ p.ppm))
passed_to_bound d f [] p e small = (omega arith, (p, e, omega arith, refl))
passed_to_bound d f (pkt ∷ pkts) p e small =
    let (p', found, window, ppm, less) = packet_step d f pkt p e (omega arith) in
    let (bound, (p'', found', window', ppm')) =
      passed_to_bound d (filter f pkt).0 pkts p' found
        (omega (arith, one_if_le (str_eq pkt.dst_client_id d))) in
    (omega arith, (p'', found', omega arith, ppm' ∙ ppm))
