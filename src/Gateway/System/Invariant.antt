-- ===== src/Gateway/System/Invariant.antt =====
-- What holds of a device and the firewall in every state that can be reached.
use resfit.Prelude.{◌≤◌, ◌≡◌, ◌≢◌, sym, ap, ◌∙◌, subst, true, none, [], length, Exec, ok, ub, spent}
use resfit.Prelude.Memory.{Bytes}
use resfit.Gateway.Maps.{find}
use resfit.Gateway.State.{Gateway, StoredDevice}
use resfit.Gateway.PubSubAgent.{new_device}
use resfit.Gateway.Filter.{AtlasFilter}
use resfit.Gateway.System.{
  System, expire, take_policy, Step, registers, keeps_alive, expires, takes_policy, filters,
  starts_window, Reach, here, then_step,
}
use resfit.Gateway.System.Agreement.{Agrees, filter-Matching, timer-Matching}
use resfit.Gateway.System.Steps.{
  readdressed, register-Agrees, keep_alive-Agrees, expire-Agrees, take_policy-Agrees,
}

-- A run that has one outcome.
abbrev result_or : System → Exec System → System
result_or s (ok t) = t
result_or s ub = s
result_or s spent = s

only_outcome :
    (s t : System) (m : Exec System) → m ≡ ok t → (u : System) × (m ≡ ok u) × Agrees u → Agrees t
only_outcome s t m e (u, e', a) = subst Agrees (ap (result_or s) (sym e' ∙ e)) a

Step-Agrees : (s t : System) → Agrees s → Step s t → Agrees t
Step-Agrees s t a (registers ip_port) = readdressed s ip_port _ _ (register-Agrees s a)
Step-Agrees s t a (keeps_alive ip_port on) = readdressed s ip_port _ _ (keep_alive-Agrees s on a)
Step-Agrees s _ a (expires t on e) = only_outcome s t (expire s) e (expire-Agrees s on a)
Step-Agrees s _ a (takes_policy p t fits on same e) =
    only_outcome s t (take_policy p s) e (take_policy-Agrees s p fits on same a)
Step-Agrees s t a (filters pkt) = record {
  connected = a.connected;
  idle = a.idle;
  short = a.short;
  named = a.named;
  counted = a.counted;
  matching =
      filter-Matching s.device.registered s.device.identity s.device.policy s.filter pkt a.matching;
}
Step-Agrees s t a starts_window = record {
  connected = a.connected;
  idle = a.idle;
  short = a.short;
  named = a.named;
  counted = a.counted;
  matching =
      timer-Matching s.device.registered s.device.identity s.device.policy s.filter a.matching;
}

-- A device as the gateway makes it, with a connected plug-in that has no rule for it.
abbrev pub starting : Bytes → StoredDevice → Gateway → AtlasFilter → System
starting id saved g f = record { device = new_device id saved; gateway = g; filter = f }

pub record IsStart (id : Bytes) (g : Gateway) (f : AtlasFilter) : Type 0 where
  pub connected : g.connected ≡ true
  pub idle : g.to_agent ≡ []
  pub short : length id ≤ 64
  pub named : id ≢ []
  pub free : find id f.rules ≡ none

-- From a new device, whose identity has one to 64 bytes, and a connected plug-in without a rule for
-- it, whatever registrations, keep-alives, rounds of the alarm, policies, packets and windows
-- follow: the firewall has a rule for the identity exactly if the device has a policy, with the
-- limits of the policy, of its QoS eight bits; a device with a policy is registered, so that an
-- unregistered one has no rule; and a registered device has a counter from 1 to 4.
pub Reach-Agrees :
    (id : Bytes) (saved : StoredDevice) (g : Gateway) (f : AtlasFilter) (t : System)
    → IsStart id g f
    → Reach (starting id saved g f) t
    → Agrees t
Reach-Agrees id saved g f t start here = record {
  connected = start.connected;
  idle = start.idle;
  short = start.short;
  named = start.named;
  counted = tt;
  matching = start.free;
}
Reach-Agrees id saved g f _ start (then_step s t reach step) =
    Step-Agrees s t (Reach-Agrees id saved g f s start reach) step

-- In every state that can be reached from such a start, of a new device and a connected plug-in
-- without a rule for it, if the device is registered, a round of the keep-alive alarm runs to its end: it
-- reads no counter that was not set, and the plug-in takes the message that it may cause.
pub Reach-expire :
    (id : Bytes) (saved : StoredDevice) (g : Gateway) (f : AtlasFilter) (t : System)
    → IsStart id g f
    → Reach (starting id saved g f) t
    → t.device.registered ≡ true
    → (u : System) × (expire t ≡ ok u)
Reach-expire id saved g f t start reach on =
    let (u, e, a) = expire-Agrees t on (Reach-Agrees id saved g f t start reach) in (u, e)
