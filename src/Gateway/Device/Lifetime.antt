-- ===== src/Gateway/Device/Lifetime.antt =====
-- The life of a device at the gateway: registration, keep-alives, and the way out.
use resfit.Prelude.{
  ℕ, zero, suc, ◌+◌, ◌-◌, ◌≤◌, ◌≡◌, ◌≢◌, refl, sym, ap, ◌∙◌, Bool, true, false, ◌&&◌, Option, none,
  some, [], arith, length, ◌==◌, if◌then◌else◌, Bool-cases, inl, inr, cond_true, cond_false, Exec,
  ok, ◌>>=◌, not, ==_iff,
}
use resfit.Prelude.Memory.{Bytes}
use resfit.Prelude.Text.{str_eq, str_eq_iff}
use resfit.Gateway.State.{
  AtlasFirewallPolicy, AtlasDevice, Gateway, register_event, update_device, policy_event,
}
use resfit.Gateway.PubSubAgent.Rules.{sent, remove_bytes, remove_firewall_rule_lem}
use resfit.Gateway.Device.{
  set_ip_port, keep_alive_expired, uninstall_policy, policy_eq, set_policy_info, expired_with,
  uninstall, tell_unregistered, compared, policy_or_new, assigned,
}

-- The address is the new one, whether it was new or not, and nothing else of the device changes.
pub set_ip_port_lem :
    (ip_port : Bytes) (d : AtlasDevice) (g : Gateway)
    → ((set_ip_port ip_port (d, g)).0 ≡ record d { ip_port = ip_port })
      × ((set_ip_port ip_port (d, g)).1.devices ≡ g.devices)
set_ip_port_lem ip_port d g = elim (Bool-cases (str_eq d.ip_port ip_port)) [
  | inl e ↦ rw e ((λ i. record d { ip_port = (str_eq_iff d.ip_port ip_port).0 e i }), refl)
  | inr e ↦ rw e (refl, refl)
]

-- Rounds of the keep-alive alarm without a keep-alive between them.
unfoldable pub expire_times : ℕ → AtlasDevice × Gateway → Exec (AtlasDevice × Gateway)
expire_times zero dg = ok dg
expire_times (suc n) dg = keep_alive_expired dg >>= expire_times n

-- A round that is not the last.
pub expire_waits :
    (d : AtlasDevice) (g : Gateway) (k : ℕ)
    → d.ka_ctr ≡ some (suc (suc k))
    → keep_alive_expired (d, g) ≡ ok (record d { ka_ctr = some (suc k) }, g)
unfolding keep_alive_expired
expire_waits d g k e =
    ap (λ o. expired_with o (d, g)) e
    ∙ cond_false _ _ (let z : ((suc k == 0) && d.registered) ≡ false = ground arith in z)

expire_times_waits :
    (n k : ℕ) (d : AtlasDevice) (g : Gateway)
    → d.ka_ctr ≡ some (n + suc k)
    → expire_times n (d, g) ≡ ok (record d { ka_ctr = some (suc k) }, g)
unfolding expire_times
expire_times_waits zero k d g e =
    let same : zero + suc k ≡ suc k = omega arith in
    λ i. ok (record d { ka_ctr = (e ∙ ap some same) i }, g)
expire_times_waits (suc n) k d g e =
    let here : suc n + suc k ≡ suc (suc (n + k)) = omega arith in
    let next : suc (n + k) ≡ n + suc k = omega arith in
    ap (λ m. m >>= expire_times n) (expire_waits d g (n + k) (e ∙ ap some here))
    ∙ expire_times_waits n k (record d { ka_ctr = some (suc (n + k)) }) g (ap some next)

-- The client id of a policy can be written to the plug-in.
abbrev pub Removable : Option AtlasFirewallPolicy → Type 0
Removable none = Unit {0}
Removable (some p) = (length p.client_id ≤ 64) × (p.client_id ≢ [])

-- The message by which the rule of a policy, if there is one, is removed.
abbrev pub removed : Option AtlasFirewallPolicy → Gateway → Gateway
removed none g = g
removed (some p) g = sent (remove_bytes p.client_id) g

-- A device that has expired.
abbrev pub gone : AtlasDevice → AtlasDevice
gone d = record d { ka_ctr = some 0; registered = false; policy = none }

uninstall_policy_lem :
    (d : AtlasDevice) (g : Gateway)
    → Removable d.policy
    → g.connected ≡ true
    → uninstall_policy (d, g) ≡ ok (record d { policy = none }, removed d.policy g)
unfolding uninstall_policy
uninstall_policy_lem d g h up = either d.policy h
  where
    either :
        (o : Option AtlasFirewallPolicy)
        → Removable o
        → uninstall o (record d { policy = o }, g) ≡ ok (record d { policy = none }, removed o g)
    either none r = refl
    either (some p) r =
        ap (λ m. m >>= λ g. ok (record d { policy = none }, g))
          (remove_firewall_rule_lem g p.client_id r.0 r.1 up)

pub expire_last :
    (d : AtlasDevice) (g : Gateway)
    → d.ka_ctr ≡ some 1
    → d.registered ≡ true
    → Removable d.policy
    → g.connected ≡ true
    → keep_alive_expired (d, g)
      ≡ ok (gone d, update_device d.identity (register_event false) (removed d.policy g))
unfolding keep_alive_expired
expire_last d g e on h up =
    ap (λ o. expired_with o (d, g)) e
    ∙ cond_true _ _ on
    ∙ ap (λ m. m >>= λ dg. ok (tell_unregistered dg))
        (uninstall_policy_lem (record d { ka_ctr = some 0; registered = false }) g h up)

-- Fewer rounds of the keep-alive alarm than the counter of a registered device stands at lower the
-- counter and change nothing else. As many rounds as it stands at end the registration: the device
-- has no policy any more, the plug-in is told to remove its rule, if it had one, and the cloud is
-- told that the device is unregistered. The plug-in must be connected, and the client id of a
-- policy not empty and no longer than 64 bytes.
pub expire_times_lem :
    (k n : ℕ) (d : AtlasDevice) (g : Gateway)
    → n ≤ k
    → d.ka_ctr ≡ some (suc k)
    → d.registered ≡ true
    → Removable d.policy
    → g.connected ≡ true
    → (expire_times n (d, g) ≡ ok (record d { ka_ctr = some (suc k - n) }, g))
      × (expire_times (suc k) (d, g)
          ≡ ok (gone d, update_device d.identity (register_event false) (removed d.policy g)))
unfolding expire_times
expire_times_lem k n d g le e on h up = (
  let split : suc k ≡ n + suc (k - n) = omega arith in
      let rest : suc (k - n) ≡ suc k - n = omega arith in
      expire_times_waits n (k - n) d g (e ∙ ap some split)
      ∙ ap (λ j. ok (record d { ka_ctr = some j }, g)) rest,
  last k d e on h,
)
  where
    last :
        (k : ℕ) (d' : AtlasDevice)
        → d'.ka_ctr ≡ some (suc k)
        → d'.registered ≡ true
        → Removable d'.policy
        → (keep_alive_expired (d', g) >>= expire_times k)
          ≡ ok (gone d', update_device d'.identity (register_event false) (removed d'.policy g))
    last zero d' e on h = ap (λ m. m >>= expire_times zero) (expire_last d' g e on h up)
    last (suc k) d' e on h =
        ap (λ m. m >>= expire_times (suc k)) (expire_waits d' g k e)
        ∙ last k (record d' { ka_ctr = some (suc k) }) refl on h

and_true : (a b : Bool) → (a && b) ≡ true → (a ≡ true) × (b ≡ true)
and_true true b e = (refl, e)
and_true false b e = absurd (cc (e))

-- What the cloud is not told of: a policy that differs from the old one at most in its packets per
-- minute, which must not be 0.
abbrev pub untold : Option AtlasFirewallPolicy → AtlasFirewallPolicy → Bool
untold none policy = false
untold (some old) policy =
    (str_eq old.client_id policy.client_id && (old.qos == policy.qos))
    && (not (policy.ppm == 0) && (old.payload_len == policy.payload_len))

policy_eq-true :
    (old new : AtlasFirewallPolicy) → untold (some old) new ≡ true → policy_eq old new ≡ (new, true)
unfolding policy_eq
policy_eq-true old new e =
    let front = and_true (str_eq old.client_id new.client_id && (old.qos == new.qos)) _ e in
    let texts = and_true (str_eq old.client_id new.client_id) (old.qos == new.qos) front.0 in
    let back = and_true (not (new.ppm == 0)) (old.payload_len == new.payload_len) front.1 in
    let id : old.client_id ≡ new.client_id = (str_eq_iff old.client_id new.client_id).0 texts.0 in
    let qos : old.qos ≡ new.qos = (==_iff old.qos new.qos).0 texts.1 in
    let len : old.payload_len ≡ new.payload_len =
      (==_iff old.payload_len new.payload_len).0 back.1 in
    cond_true _ _ front.0 ∙ (λ i.
      (record { client_id = id i; qos = qos i; ppm = new.ppm; payload_len = len i }, front.1 i))

policy_eq-false :
    (old new : AtlasFirewallPolicy) → untold (some old) new ≡ false → (policy_eq old new).1 ≡ false
unfolding policy_eq
policy_eq-false old new e = either (str_eq old.client_id new.client_id && (old.qos == new.qos)) _ e
  where
    either : (a b : Bool) → (a && b) ≡ false → (assigned old new a b).1 ≡ false
    either true b e = e
    either false b e = refl

-- Whatever policy a device had, `setPolicyInfo` leaves it with the new one, and nothing else of the
-- device changes. The cloud is told of the new policy, unless the client id, the QoS and the
-- payload length are those of the old one and the packets per minute are not 0: a policy that
-- differs only in its packets per minute is kept from the cloud.
pub set_policy_info_lem :
    (policy : AtlasFirewallPolicy) (d : AtlasDevice) (g : Gateway)
    → set_policy_info policy (d, g) ≡ (
      record d { policy = some policy },
      (if untold d.policy policy then g else update_device d.identity (policy_event policy) g),
    )
unfolding set_policy_info
set_policy_info_lem policy d g = either d.policy
  where
    told : Gateway
    told = update_device d.identity (policy_event policy) g

    compare_told :
        (p : AtlasFirewallPolicy × Bool)
        → p.1 ≡ false
        → compared p policy (d, g) ≡ (record d { policy = some policy }, told)
    compare_told (old, true) e = absurd (cc (e))
    compare_told (old, false) e = refl

    either :
        (o : Option AtlasFirewallPolicy)
        → policy_or_new o policy (d, g) ≡ (
          record d { policy = some policy },
          (if untold o policy then g else update_device d.identity (policy_event policy) g),
        )
    either none = refl
    either (some old) = elim (Bool-cases (untold (some old) policy)) [
      | inl e ↦
          ap (λ p. compared p policy (d, g)) (policy_eq-true old policy e)
          ∙ ap (λ h. (record d { policy = some policy }, h)) (sym (cond_true g _ e))
      | inr e ↦
          compare_told (policy_eq old policy) (policy_eq-false old policy e)
          ∙ ap (λ h. (record d { policy = some policy }, h)) (sym (cond_false g _ e))
    ]
