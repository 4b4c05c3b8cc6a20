-- ===== src/Gateway/Device.antt =====
-- atlas_gateway/src/device/AtlasDevice.cpp and policy/AtlasFirewallPolicy.cpp: a device registers,
-- is kept alive, expires, and has a policy. A method takes the device and the gateway around it.
pub mod Lifetime
use resfit.Prelude.{
  ℕ, zero, suc, ◌+◌, ◌-◌, Bool, true, false, ◌&&◌, not, Option, none, some, List, [], ◌∷◌, ◌==◌,
  if◌then◌else◌, Exec, ok, ub, ◌>>=◌,
}
use resfit.Prelude.Memory.{Bytes}
use resfit.Prelude.Text.{str_eq}
use resfit.Gateway.Maps.{Dict, find, store}
use resfit.Gateway.State.{
  AtlasFirewallPolicy, AtlasDevice, Gateway, whole_device, register_event, keepalive_event,
  ip_port_event, policy_event, update_device,
}
use resfit.Gateway.PubSubAgent.{remove_firewall_rule, put_device}

-- ATLAS_KEEP_ALIVE_COUNTER
abbrev pub keep_alive_counter : ℕ
keep_alive_counter = 4

abbrev pub set_ip_port : Bytes → AtlasDevice × Gateway → AtlasDevice × Gateway
set_ip_port ip_port (d, g) =
    if str_eq d.ip_port ip_port
    then (d, g)
    else (record d { ip_port = ip_port }, update_device d.identity (ip_port_event ip_port) g)

-- `registerNow`, less its time stamps; the features of the telemetry are not modelled
abbrev pub registered_device : AtlasDevice → AtlasDevice
registered_device d = record d { registered = true; ka_ctr = some keep_alive_counter }

unfoldable pub register_now : AtlasDevice × Gateway → AtlasDevice × Gateway
register_now (d, g) =
    (registered_device d, update_device d.identity (whole_device (registered_device d)) g)

unfoldable pub keep_alive_now : AtlasDevice × Gateway → AtlasDevice × Gateway
keep_alive_now (d, g) = (
  record d { ka_ctr = some keep_alive_counter; keep_alive_pkts = d.keep_alive_pkts + 1 },
  update_device d.identity keepalive_event g,
)

abbrev pub uninstall :
    Option AtlasFirewallPolicy → AtlasDevice × Gateway → Exec (AtlasDevice × Gateway)
uninstall none (d, g) = ok (d, g)
uninstall (some policy) (d, g) = do
  g ← remove_firewall_rule g policy.client_id
  ok (record d { policy = none }, g)

pub uninstall_policy : AtlasDevice × Gateway → Exec (AtlasDevice × Gateway)
uninstall_policy (d, g) = uninstall d.policy (d, g)

abbrev pub tell_unregistered : AtlasDevice × Gateway → AtlasDevice × Gateway
tell_unregistered (d, g) = (d, update_device d.identity (register_event false) g)

abbrev expired : ℕ → AtlasDevice × Gateway → Exec (AtlasDevice × Gateway)
expired zero (d, g) = ok (d, g)
expired (suc k) (d, g) =
    if (k == 0) && d.registered
    then (do
      dg ← uninstall_policy (record d { ka_ctr = some k; registered = false }, g)
      ok (tell_unregistered dg))
    else ok (record d { ka_ctr = some k }, g)

abbrev pub expired_with : Option ℕ → AtlasDevice × Gateway → Exec (AtlasDevice × Gateway)
expired_with none dg = ub
expired_with (some k) dg = expired k dg

-- `keepAliveExpired`; reading a counter that was never set is undefined
unfoldable pub keep_alive_expired : AtlasDevice × Gateway → Exec (AtlasDevice × Gateway)
unfolding uninstall_policy
keep_alive_expired (d, g) = expired_with d.ka_ctr (d, g)

-- The tests in front of the assignment, and those from it on.
abbrev pub assigned :
    AtlasFirewallPolicy → AtlasFirewallPolicy → Bool → Bool → AtlasFirewallPolicy × Bool
assigned p c front back = if front then (record p { ppm = c.ppm }, back) else (p, false)

-- `AtlasFirewallPolicy::operator==`: the test of `ppm_` assigns it, so that the left policy changes
-- if the tests in front of it hold, and the result asks whether the new value is not 0.
pub policy_eq : AtlasFirewallPolicy → AtlasFirewallPolicy → AtlasFirewallPolicy × Bool
policy_eq p c =
    assigned p c (str_eq p.client_id c.client_id && (p.qos == c.qos))
      (not (c.ppm == 0) && (p.payload_len == c.payload_len))

abbrev pub set_policy : AtlasFirewallPolicy → AtlasDevice × Gateway → AtlasDevice × Gateway
set_policy policy (d, g) =
    (record d { policy = some policy }, update_device d.identity (policy_event policy) g)

abbrev pub compared :
    AtlasFirewallPolicy × Bool → AtlasFirewallPolicy → AtlasDevice × Gateway → AtlasDevice × Gateway
compared (old, true) policy (d, g) = (record d { policy = some old }, g)
compared (old, false) policy dg = set_policy policy dg

abbrev pub policy_or_new :
    Option AtlasFirewallPolicy → AtlasFirewallPolicy → AtlasDevice × Gateway → AtlasDevice × Gateway
policy_or_new none policy dg = set_policy policy dg
policy_or_new (some old) policy dg = compared (policy_eq old policy) policy dg

-- `setPolicyInfo` of a policy that is not NULL
unfoldable pub set_policy_info : AtlasFirewallPolicy → AtlasDevice × Gateway → AtlasDevice × Gateway
unfolding policy_eq
set_policy_info policy (d, g) = policy_or_new d.policy policy (d, g)

-- `keepaliveAlarmCallback` of AtlasRegister.cpp: `forEachDevice` of the devices in a list.
abbrev expire_registered : AtlasDevice × Gateway → Exec (AtlasDevice × Gateway)
expire_registered (d, g) = if d.registered then keep_alive_expired (d, g) else ok (d, g)

pub expire_each : Dict AtlasDevice → Gateway → Exec Gateway
unfolding keep_alive_expired
expire_each [] g = ok g
expire_each ((id, d) ∷ devices) g =
    expire_registered (d, g) >>= λ dg. expire_each devices (put_device id dg.0 dg.1)

pub keepalive_alarm_callback : Gateway → Exec Gateway
unfolding expire_each
keepalive_alarm_callback g = expire_each g.devices g
