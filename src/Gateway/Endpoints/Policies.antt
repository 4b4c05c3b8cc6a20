-- ===== src/Gateway/Endpoints/Policies.antt =====
-- The client's policy, from the end-point to the firewall of the broker.
use resfit.Prelude.{
  ◌≡◌, ap, ◌∙◌, Bool, true, false, Option, none, some, List, [], ◌∷◌, map, arith, length,
  if◌then◌else◌, cond_true, Exec, ◌>>=◌,
}
use resfit.Prelude.Memory.{be16}
use resfit.Command.Frame.{Frame, frame, AllFrames, encode}
use resfit.Gateway.Types
use resfit.Gateway.Batch.{received_commands, AtlasCommand}
use resfit.Gateway.Batch.Writing.{command_of}
use resfit.Gateway.Batch.Parsing.{received_commands-encode}
use resfit.Gateway.Values.{value_u16-be16}
use resfit.Gateway.State.{AtlasFirewallPolicy, AtlasDevice, Gateway, policy_event, update_device}
use resfit.Gateway.PubSubAgent.{get_device, put_device, install_firewall_rule}
use resfit.Gateway.PubSubAgent.Rules.{sent, install_bytes, install_firewall_rule_lem}
use resfit.Gateway.Filter.Commands.{IsPolicy}
use resfit.Gateway.Device.Lifetime.{untold, set_policy_info_lem}
use resfit.Gateway.Endpoints.{
  Answer, refused, accepted, while_accepted, with_registered, is_empty, no_policy, policy_body,
  policy_request, install_policy, firewall_policy_callback,
}

abbrev pub limit_request : AtlasFirewallPolicy → List Frame
limit_request p =
    frame Types.data_plane_policy_max_qos (be16 p.qos)
    ∷ frame Types.data_plane_policy_packets_per_minute (be16 p.ppm)
    ∷ frame Types.data_plane_policy_packets_maxlen (be16 p.payload_len)
    ∷ []

limit_request-AllFrames : (p : AtlasFirewallPolicy) → AllFrames (limit_request p)
limit_request-AllFrames p = (
  record { type_fits = omega arith; value_fits = omega arith },
  (
    record { type_fits = omega arith; value_fits = omega arith },
    (record { type_fits = omega arith; value_fits = omega arith }, tt),
  ),
)

limits_read :
    (p : AtlasFirewallPolicy)
    → IsPolicy p
    → while_accepted policy_body (some no_policy) (map command_of (limit_request p))
      ≡ Exec.ok
          (some (record { qos = some p.qos; ppm = some p.ppm; payload_len = some p.payload_len }))
unfolding policy_body
limits_read p h = rw (
  value_u16-be16 Types.data_plane_policy_max_qos p.qos h.qos_fits,
  value_u16-be16 Types.data_plane_policy_packets_per_minute p.ppm h.ppm_fits,
  value_u16-be16 Types.data_plane_policy_packets_maxlen p.payload_len h.payload_len_fits,
)

-- The gateway after the policy was set.
abbrev pub with_policy : AtlasFirewallPolicy → AtlasDevice → Gateway → Gateway
with_policy p d g =
    put_device p.client_id (record d { policy = some p })
      (if untold d.policy p then g else update_device d.identity (policy_event p) g)

told-connected :
    (b : Bool) (p : AtlasFirewallPolicy) (d : AtlasDevice) (g : Gateway)
    → g.connected ≡ true
    → (if b then g else update_device d.identity (policy_event p) g).connected ≡ true
told-connected true p d g up = up
told-connected false p d g up = up

installed :
    (p : AtlasFirewallPolicy) (d : AtlasDevice) (g : Gateway)
    → IsPolicy p
    → g.connected ≡ true
    → install_policy p.client_id p d g
      ≡ Exec.ok (accepted none (sent (install_bytes p) (with_policy p d g)))
installed p d g h up =
    ap
      (λ dg.
        install_firewall_rule (put_device p.client_id dg.0 dg.1) p.client_id dg.0.policy >>= λ g.
        Exec.ok (accepted none g))
      (set_policy_info_lem p d g)
    ∙ ap (λ m. m >>= λ g. Exec.ok (accepted none g))
        (install_firewall_rule_lem (with_policy p d g) p.client_id p h
          (told-connected (untold d.policy p) p d g up))

-- The policy of a registered device, handed in as its client does, in network order, is accepted.
-- The device then has exactly this policy, under its identity, and the plug-in is sent the bytes
-- that install it. The values must fit 16 bits, the identity 64 bytes, and the plug-in must be
-- connected.
pub firewall_policy_callback-limits :
    (p : AtlasFirewallPolicy) (g g' : Gateway) (d : AtlasDevice)
    → IsPolicy p
    → get_device g p.client_id ≡ (g', some d)
    → d.registered ≡ true
    → g'.connected ≡ true
    → firewall_policy_callback p.client_id
        (some (encode (limit_request p)))
        (length (encode (limit_request p)))
        g
      ≡ Exec.ok (accepted none (sent (install_bytes p) (with_policy p d g')))
unfolding firewall_policy_callback policy_request
firewall_policy_callback-limits p g g' d h known on up =
    let fs : List Frame = limit_request p in
    let cont : Exec (List AtlasCommand) → Exec Answer = λ m. m >>= λ cmds.
    if is_empty cmds
    then Exec.ok (refused g')
    else (while_accepted policy_body (some no_policy) cmds >>= policy_request p.client_id d g') in
    let read : Gateway × Option AtlasDevice → Exec Answer = with_registered (λ d g.
      received_commands (some (encode fs)) (length (encode fs)) >>= λ cmds.
      if is_empty cmds
      then Exec.ok (refused g)
      else (while_accepted policy_body (some no_policy) cmds >>= policy_request p.client_id d g)) in
    ap read known
    ∙ cond_true _ _ on
    ∙ ap cont (
        received_commands-encode (frame Types.data_plane_policy_max_qos (be16 p.qos))
          (frame Types.data_plane_policy_packets_per_minute (be16 p.ppm)
            ∷ frame Types.data_plane_policy_packets_maxlen (be16 p.payload_len)
            ∷ [])
          (limit_request-AllFrames p))
    ∙ ap (λ m. m >>= policy_request p.client_id d g') (limits_read p h)
    ∙ installed p d g' h up
