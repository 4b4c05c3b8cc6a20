-- ===== src/Gateway/System/Agreement.antt =====
-- The rules of the firewall agree with the policies of the gateway.
use resfit.Prelude.{
  ℕ, ◌%◌, ◌≤◌, ◌<◌, ◌≡◌, ◌≢◌, sym, ap, ◌∙◌, subst, Bool, true, false, Option, none, some, [], arith,
  length, Bool-cases, inl, inr,
}
use resfit.Prelude.Memory.{Bytes}
use resfit.Prelude.Text.{str_eq, str_eq_iff}
use resfit.Gateway.Maps.{find, find-for_each}
use resfit.Gateway.State.{AtlasFirewallPolicy}
use resfit.Gateway.Filter
use resfit.Gateway.Filter.{
  AtlasPacket, AtlasPacketPolicer, AtlasFilter, packet_policer, policer_filter, timer_handler,
  install_rule, remove_rule, rate_limit_window_start,
}
use resfit.Gateway.Filter.Limits.{filter-other, filter_self, filter_free}
use resfit.Gateway.System.{System}

-- A registered device has a counter above 0.
abbrev pub Counted : Bool → Option ℕ → Type 0
Counted false o = Unit {0}
Counted true none = ⊥
Counted true (some k) = (0 < k) × (k ≤ 4)

-- A rule has the limits of a policy, of the QoS eight bits.
abbrev pub Limits : AtlasFirewallPolicy → AtlasPacketPolicer → Type 0
Limits p q =
    (q.max_qos ≡ p.qos % 256)
    × (q.ppm ≡ p.ppm % 65536)
    × (q.max_payload_len ≡ p.payload_len % 65536)

-- The policy of a device and its rule: neither, or both, and then the device is registered.
abbrev pub Matching : Bool → Bytes → Option AtlasFirewallPolicy → Option AtlasPacketPolicer → Type 0
Matching registered id none rule = rule ≡ none
Matching registered id (some p) rule =
    (registered ≡ true)
    × (p.client_id ≡ id)
    × ((q : AtlasPacketPolicer) × (rule ≡ some q) × Limits p q)

pub record Agrees (s : System) : Type 0 where
  pub connected : s.gateway.connected ≡ true
  pub idle : s.gateway.to_agent ≡ []
  pub short : length s.device.identity ≤ 64
  pub named : s.device.identity ≢ []
  pub counted : Counted s.device.registered s.device.ka_ctr
  pub matching :
      Matching s.device.registered s.device.identity s.device.policy
        (find s.device.identity s.filter.rules)

policer_filter-Limits :
    (p : AtlasFirewallPolicy) (q : AtlasPacketPolicer) (pkt : AtlasPacket)
    → Limits p q
    → Limits p (policer_filter q pkt).0
unfolding policer_filter
policer_filter-Limits p q pkt l = ground arith

-- A packet changes counters only.
pub filter-Matching :
    (b : Bool) (id : Bytes) (o : Option AtlasFirewallPolicy) (f : AtlasFilter) (pkt : AtlasPacket)
    → Matching b id o (find id f.rules)
    → Matching b id o (find id (Filter.filter f pkt).0.rules)
filter-Matching b id o f pkt m = elim (Bool-cases (str_eq pkt.dst_client_id id)) [
  | inl eq ↦ either o eq m
  | inr ne ↦ subst (Matching b id o) (sym (filter-other id f pkt ne)) m
]
  where
    either :
        (o : Option AtlasFirewallPolicy)
        → str_eq pkt.dst_client_id id ≡ true
        → Matching b id o (find id f.rules)
        → Matching b id o (find id (Filter.filter f pkt).0.rules)
    either none eq m =
        let same : pkt.dst_client_id ≡ id = (str_eq_iff pkt.dst_client_id id).0 eq in
        ap (find id) (filter_free f pkt (ap (λ k. find k f.rules) same ∙ m)).1 ∙ m
    either (some p) eq (on, named, (q, found, limits)) = (
      on,
      named,
      (
        (policer_filter q pkt).0,
        (filter_self id f pkt q found eq).0,
        policer_filter-Limits p q pkt limits,
      ),
    )

pub timer-Matching :
    (b : Bool) (id : Bytes) (o : Option AtlasFirewallPolicy) (f : AtlasFilter)
    → Matching b id o (find id f.rules)
    → Matching b id o (find id (timer_handler f false).rules)
unfolding timer_handler
timer-Matching b id none f m =
    find-for_each rate_limit_window_start id f.rules
    ∙ ap (λ o. elim o [ none ↦ none | some v ↦ some (rate_limit_window_start v) ]) m
timer-Matching b id (some p) f (on, named, (q, found, limits)) = (
  on,
  named,
  (
    rate_limit_window_start q,
    find-for_each rate_limit_window_start id f.rules
        ∙ ap (λ o. elim o [ none ↦ none | some v ↦ some (rate_limit_window_start v) ]) found,
    limits,
  ),
)
