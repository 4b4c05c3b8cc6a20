-- ===== src/Gateway/System/Steps.antt =====
-- Every step keeps the agreement of rules and policies, and can be taken.
use resfit.Prelude.{
  ℕ, zero, suc, ◌≤◌, ◌≡◌, ◌≢◌, refl, sym, ap, ◌∙◌, subst, Bool, true, false, Option, none, some, [],
  ◌∷◌, ◌++◌, arith, length, if◌then◌else◌, Bool-cases, inl, inr, cond_true, cond_false, ok, ◌>>=◌,
}
use resfit.Prelude.Memory.{Bytes}
use resfit.Prelude.Text.{str_eq, str_eq_iff, text_differs}
use resfit.Gateway.Maps.{find, find-store, find-erase}
use resfit.Gateway.State.{
  AtlasFirewallPolicy, AtlasDevice, Gateway, register_event, policy_event, update_device,
}
use resfit.Gateway.PubSubAgent.Rules.{sent, install_bytes, remove_bytes, install_firewall_rule_lem}
use resfit.Gateway.Filter.{
  AtlasFilter, AtlasPacketPolicer, packet_policer, install_rule, remove_rule,
}
use resfit.Gateway.Filter.Commands.{IsPolicy, process_command-install, process_command-remove}
use resfit.Gateway.Device.{set_ip_port, register_now, keep_alive_now}
use resfit.Gateway.Device.Lifetime.{
  expire_waits, expire_last, set_policy_info_lem, Removable, removed, gone, untold,
}
use resfit.Gateway.System.{System, deliver, moved, settled, settle, expire, install, take_policy}
use resfit.Gateway.System.Agreement.{Counted, Matching, Agrees}

-- A new address is told to the cloud only.
pub readdressed :
    (s : System) (ip_port : Bytes) (d : AtlasDevice) (g : Gateway)
    → Agrees (moved s (d, g))
    → Agrees (moved s (set_ip_port ip_port (d, g)))
readdressed s ip_port d g a = elim (Bool-cases (str_eq d.ip_port ip_port)) [
  | inl e ↦ rw e a
  | inr e ↦ rw e (record {
    connected = a.connected;
    idle = a.idle;
    short = a.short;
    named = a.named;
    counted = a.counted;
    matching = a.matching;
  })
]

-- Registering again keeps the policy and its rule.
registered-Matching :
    (b : Bool) (id : Bytes) (o : Option AtlasFirewallPolicy) (rule : Option AtlasPacketPolicer)
    → Matching b id o rule
    → Matching true id o rule
registered-Matching b id none rule m = m
registered-Matching b id (some p) rule m = (refl, m.1, m.2)

pub register-Agrees :
    (s : System) → Agrees s → Agrees (moved s (register_now (s.device, s.gateway)))
unfolding register_now
register-Agrees s a = record {
  connected = a.connected;
  idle = a.idle;
  short = a.short;
  named = a.named;
  counted = omega arith;
  matching = registered-Matching s.device.registered s.device.identity s.device.policy _ a.matching;
}

pub keep_alive-Agrees :
    (s : System)
    → s.device.registered ≡ true
    → Agrees s
    → Agrees (moved s (keep_alive_now (s.device, s.gateway)))
unfolding keep_alive_now
keep_alive-Agrees s on a = record {
  connected = a.connected;
  idle = a.idle;
  short = a.short;
  named = a.named;
  counted = subst (λ b. Counted b (some 4)) (sym on) (omega arith);
  matching = a.matching;
}

gone_rule :
    (f : AtlasFilter) (k id : Bytes) → k ≡ id → id ≢ [] → find id (remove_rule f k).rules ≡ none
unfolding remove_rule
gone_rule f k id same named =
    ap (λ (h : AtlasFilter). find id h.rules)
      (cond_false _ _ (text_differs k [] (λ e. named (sym same ∙ e))))
    ∙ find-erase id k f.rules
    ∙ cond_true _ _ ((str_eq_iff k id).1 same)

-- The rule of a policy that is gone is removed.
delivered_removal :
    (b : Bool) (id : Bytes) (o : Option AtlasFirewallPolicy) (g : Gateway) (f : AtlasFilter)
    → length id ≤ 64
    → id ≢ []
    → g.to_agent ≡ []
    → Matching b id o (find id f.rules)
    → (f' : AtlasFilter) × (deliver (removed o g).to_agent f ≡ ok f') × (find id f'.rules ≡ none)
unfolding deliver
delivered_removal b id none g f short named idle m = (f, ap (λ l. deliver l f) idle, m)
delivered_removal b id (some p) g f short named idle (on, same, rule) = (
  remove_rule f p.client_id,
  ap (λ l. deliver (l ++ remove_bytes p.client_id ∷ []) f) idle
      ∙ ap (λ m. m >>= deliver [])
          (process_command-remove f p.client_id (subst (λ i. length i ≤ 64) (sym same) short)),
  gone_rule f p.client_id id same named,
)

removed-connected :
    (o : Option AtlasFirewallPolicy) (g : Gateway) → (removed o g).connected ≡ g.connected
removed-connected none g = refl
removed-connected (some p) g = refl

Matching-Removable :
    (b : Bool) (id : Bytes) (o : Option AtlasFirewallPolicy) (rule : Option AtlasPacketPolicer)
    → length id ≤ 64
    → id ≢ []
    → Matching b id o rule
    → Removable o
Matching-Removable b id none rule short named m = tt
Matching-Removable b id (some p) rule short named m =
    (subst (λ i. length i ≤ 64) (sym m.1) short, λ e. named (sym m.1 ∙ e))

-- The last round removes the rule with the policy.
expire-last :
    (s : System)
    → s.device.registered ≡ true
    → s.device.ka_ctr ≡ some 1
    → Agrees s
    → (t : System) × (expire s ≡ ok t) × Agrees t
unfolding expire
expire-last s on one a =
    let d : AtlasDevice = s.device in
    let (f', delivered, free) =
      delivered_removal d.registered d.identity d.policy s.gateway s.filter a.short a.named a.idle
        a.matching in
    let g : Gateway =
      update_device d.identity (register_event false) (removed d.policy s.gateway) in
    (
      settled (gone d, g) f',
      ap (λ m. m >>= λ dg. settle dg s.filter)
            (expire_last d s.gateway one on
              (Matching-Removable d.registered d.identity d.policy _ a.short a.named a.matching)
              a.connected)
          ∙ ap (λ m. m >>= λ f. ok (settled (gone d, g) f)) delivered,
      record {
        connected = removed-connected d.policy s.gateway ∙ a.connected;
        idle = refl;
        short = a.short;
        named = a.named;
        counted = tt;
        matching = free;
      },
    )

-- The rounds before it change the counter.
expire-waits :
    (s : System) (k : ℕ)
    → s.device.registered ≡ true
    → s.device.ka_ctr ≡ some (suc (suc k))
    → suc (suc k) ≤ 4
    → Agrees s
    → (t : System) × (expire s ≡ ok t) × Agrees t
unfolding expire deliver
expire-waits s k on e le a =
    let d : AtlasDevice = record (s.device) { ka_ctr = some (suc k) } in
    (
      settled (d, s.gateway) s.filter,
      ap (λ m. m >>= λ dg. settle dg s.filter) (expire_waits s.device s.gateway k e)
          ∙ ap (λ l. deliver l s.filter >>= λ f. ok (settled (d, s.gateway) f)) a.idle,
      record {
        connected = a.connected;
        idle = refl;
        short = a.short;
        named = a.named;
        counted = subst (λ b. Counted b (some (suc k))) (sym on) (omega arith);
        matching = a.matching;
      },
    )

-- A round of the alarm ends at a registered device: its counter was set.
pub expire-Agrees :
    (s : System)
    → s.device.registered ≡ true
    → Agrees s
    → (t : System) × (expire s ≡ ok t) × Agrees t
expire-Agrees s on a =
    either s.device.ka_ctr refl (subst (λ b. Counted b s.device.ka_ctr) on a.counted)
  where
    either :
        (o : Option ℕ)
        → s.device.ka_ctr ≡ o
        → Counted true o
        → (t : System) × (expire s ≡ ok t) × Agrees t
    either none e c = absurd c
    either (some zero) e c = absurd (omega arith)
    either (some (suc zero)) e c = expire-last s on e a
    either (some (suc (suc k))) e c = expire-waits s k on e c.1 a

new_rule :
    (f : AtlasFilter) (p : AtlasFirewallPolicy) (id : Bytes)
    → p.client_id ≡ id
    → id ≢ []
    → find id
        (install_rule f (record {
          client_id = p.client_id;
          max_qos = some p.qos;
          ppm = some p.ppm;
          max_payload_len = some p.payload_len;
        })).rules
      ≡ some (packet_policer p.qos p.ppm p.payload_len)
unfolding install_rule
new_rule f p id same named =
    ap (λ (h : AtlasFilter). find id h.rules)
      (cond_false _ _ (text_differs p.client_id [] (λ e. named (sym same ∙ e))))
    ∙ find-store id p.client_id (packet_policer p.qos p.ppm p.payload_len) f.rules
    ∙ cond_true _ _ ((str_eq_iff p.client_id id).1 same)

told_gateway :
    (b : Bool) (id : Bytes) (p : AtlasFirewallPolicy) (g : Gateway)
    → ((if b then g else update_device id (policy_event p) g).connected ≡ g.connected)
      × ((if b then g else update_device id (policy_event p) g).to_agent ≡ g.to_agent)
told_gateway true id p g = (refl, refl)
told_gateway false id p g = (refl, refl)

-- A policy arrives at the firewall.
pub take_policy-Agrees :
    (s : System) (p : AtlasFirewallPolicy)
    → IsPolicy p
    → s.device.registered ≡ true
    → p.client_id ≡ s.device.identity
    → Agrees s
    → (t : System) × (take_policy p s ≡ ok t) × Agrees t
unfolding take_policy deliver
take_policy-Agrees s p fits on same a =
    let d : AtlasDevice = record (s.device) { policy = some p } in
    let quiet : Bool = untold s.device.policy p in
    let g : Gateway =
      if quiet then s.gateway else update_device s.device.identity (policy_event p) s.gateway in
    let told = told_gateway quiet s.device.identity p s.gateway in
    let f' : AtlasFilter = install_rule s.filter (record {
      client_id = p.client_id;
      max_qos = some p.qos;
      ppm = some p.ppm;
      max_payload_len = some p.payload_len;
    }) in
    (
      settled (d, sent (install_bytes p) g) f',
      ap (λ dg. install p dg s.filter) (set_policy_info_lem p s.device s.gateway)
          ∙ ap (λ m. m >>= λ g. settle (d, g) s.filter)
              (install_firewall_rule_lem g p.client_id p fits (told.0 ∙ a.connected))
          ∙ ap
              (λ l. deliver (l ++ install_bytes p ∷ []) s.filter >>= λ f.
                ok (settled (d, sent (install_bytes p) g) f))
              (told.1 ∙ a.idle)
          ∙ ap (λ m. m >>= deliver [] >>= λ f. ok (settled (d, sent (install_bytes p) g) f))
              (process_command-install s.filter p fits),
      record {
        connected = told.0 ∙ a.connected;
        idle = refl;
        short = a.short;
        named = a.named;
        counted = a.counted;
        matching = (
          on,
          same,
          (
            packet_policer p.qos p.ppm p.payload_len,
            new_rule s.filter p s.device.identity same a.named,
            (refl, refl, refl),
          ),
        );
      },
    )
