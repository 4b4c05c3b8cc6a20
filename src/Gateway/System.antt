-- ===== src/Gateway/System.antt =====
-- A device at the gateway and the firewall together, over all that can happen to them: the step
-- relation of AtlasDevice.cpp, AtlasPubSubAgent.cpp and AtlasFilter.cpp, where the plug-in is
-- connected and takes each message before the next step.
pub mod Agreement
pub mod Steps
pub mod Invariant
use resfit.Prelude.{
  ℕ, ◌≡◌, Bool, true, false, Option, none, some, List, [], ◌∷◌, length, Exec, ok, ◌>>=◌,
}
use resfit.Prelude.Memory.{Bytes}
use resfit.Gateway.State.{AtlasFirewallPolicy, AtlasDevice, Gateway}
use resfit.Gateway.PubSubAgent.{install_firewall_rule}
use resfit.Gateway.Filter
use resfit.Gateway.Filter.{AtlasPacket, AtlasFilter, timer_handler}
use resfit.Gateway.Filter.Commands.{IsPolicy}
use resfit.Gateway.Device.{
  set_ip_port, register_now, keep_alive_now, keep_alive_expired, set_policy_info,
}

pub record System : Type 0 where
  pub device : AtlasDevice
  pub gateway : Gateway
  pub filter : AtlasFilter

-- The plug-in takes the messages in order.
unfoldable pub deliver : List Bytes → AtlasFilter → Exec AtlasFilter
deliver [] f = ok f
deliver (bytes ∷ messages) f =
    Filter.process_command f (some bytes) (length bytes) >>= deliver messages

abbrev pub settled : AtlasDevice × Gateway → AtlasFilter → System
settled (d, g) f = record { device = d; gateway = record g { to_agent = [] }; filter = f }

abbrev pub settle : AtlasDevice × Gateway → AtlasFilter → Exec System
settle (d, g) f = deliver g.to_agent f >>= λ f. ok (settled (d, g) f)

-- A round of the keep-alive alarm, and the arrival of a policy.
unfoldable pub expire : System → Exec System
unfolding deliver
expire s = keep_alive_expired (s.device, s.gateway) >>= λ dg. settle dg s.filter

abbrev pub install : AtlasFirewallPolicy → AtlasDevice × Gateway → AtlasFilter → Exec System
install p (d, g) f = install_firewall_rule g p.client_id d.policy >>= λ g. settle (d, g) f

unfoldable pub take_policy : AtlasFirewallPolicy → System → Exec System
unfolding deliver
take_policy p s = install p (set_policy_info p (s.device, s.gateway)) s.filter

abbrev pub moved : System → AtlasDevice × Gateway → System
moved s (d, g) = record s { device = d; gateway = g }

-- What can happen next. Keep-alives, expiry and policies are for devices that are registered, as the
-- end-points and the alarm see to; a policy is under the identity of the device.
pub data Step (s : System) : System → Type 0 where
  registers :
      (ip_port : Bytes)
      → Step s (moved s (set_ip_port ip_port (register_now (s.device, s.gateway))))
  keeps_alive :
      (ip_port : Bytes)
      → s.device.registered ≡ true
      → Step s (moved s (set_ip_port ip_port (keep_alive_now (s.device, s.gateway))))
  expires : (t : System) → s.device.registered ≡ true → expire s ≡ ok t → Step s t
  takes_policy :
      (p : AtlasFirewallPolicy) (t : System)
      → IsPolicy p
      → s.device.registered ≡ true
      → p.client_id ≡ s.device.identity
      → take_policy p s ≡ ok t
      → Step s t
  filters : (pkt : AtlasPacket) → Step s (record s { filter = (Filter.filter s.filter pkt).0 })
  starts_window : Step s (record s { filter = timer_handler s.filter false })

pub data Reach (s : System) : System → Type 0 where
  here : Reach s s
  then_step : (t u : System) → Reach s t → Step t u → Reach s u
