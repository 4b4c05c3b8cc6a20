-- ===== src/Gateway/Endpoints/Clients.antt =====
-- The client and the gateway together: what the C client sends, byte for byte, at the end-points of
-- the gateway, and the answers back at the client.
use resfit.Prelude.{
  ℕ, ◌/◌, ◌%◌, ◌≤◌, ◌<◌, ◌≡◌, ◌≢◌, refl, ap, ◌∙◌, true, some, List, [], ◌∷◌, arith, length,
  cond_true, cond_false, ok,
}
use resfit.Prelude.Memory.{Bytes, host_bytes-htons}
use resfit.Prelude.Text.{str_eq_self, text_differs}
use resfit.Status.{CoapResponse}
use resfit.Command.Types
use resfit.Command.Frame.{Frame, frame, encode}
use resfit.State.{Settings, Connector, Client}
use resfit.Config.{get_local_ip_port, ip_port_text}
use resfit.Connector
use resfit.Register.{set_ka_count, keepalive_callback}
use resfit.Register.Requests.{Configured, register_frames, keepalive_frames, length-ip_port}
use resfit.Register.KeepAlive.{keepalive_callback-token}
use resfit.DataPlane.{ClientInfo}
use resfit.DataPlane.Policy.{InfoFits, with_info}
use resfit.Gateway.Maps.{find, find-store}
use resfit.Gateway.State.{AtlasCoapResponse, AtlasFirewallPolicy, AtlasDevice, Gateway}
use resfit.Gateway.PubSubAgent.{get_device}
use resfit.Gateway.PubSubAgent.Rules.{install_bytes, sent}
use resfit.Gateway.Filter
use resfit.Gateway.Filter.{AtlasFilter, packet_policer, install_rule}
use resfit.Gateway.Filter.Commands.{IsPolicy, process_command-install}
use resfit.Gateway.Endpoints
use resfit.Gateway.Endpoints.{Answer, register_callback, firewall_policy_callback}
use resfit.Gateway.Endpoints.Registering.{IsRegistered, register_callback-texts}
use resfit.Gateway.Endpoints.Keeping.{IsKept, keepalive_callback-alive}
use resfit.Gateway.Endpoints.Policies.{limit_request, with_policy, firewall_policy_callback-limits}

-- The address that the client sends, empty if it has none.
abbrev pub address : Settings → Bytes
address s = ip_port_text (get_local_ip_port s)

-- The registration of a configured client with an identity and an address is accepted by a gateway
-- that finds its device: the device is registered, at the address of the client, with a full
-- counter of keep-alives and the policy that it had.
pub register_callback-register_frames :
    (s : Settings) (g g' : Gateway) (d : AtlasDevice)
    → Configured s
    → 0 < length s.identity
    → 0 < length (address s)
    → get_device g s.identity ≡ (g', some d)
    → (a : Answer) × (d' : AtlasDevice) × (register_callback s.identity
          (some (encode (register_frames s)))
          (length (encode (register_frames s)))
          g
        ≡ ok a)
      × (a.response ≡ AtlasCoapResponse.ok)
      × (find s.identity a.gateway.devices ≡ some d')
      × IsRegistered (address s) d d'
register_callback-register_frames s g g' d h named addressed known =
    register_callback-texts s.identity (address s) g g' d (named, omega (arith, h.short_identity))
      (addressed, omega (arith, length-ip_port s)) known

-- A keep-alive of a client with configured texts, an identity and an address that are not empty, and
-- a token of at most two bytes, whose device is registered, goes to the gateway and back: the
-- gateway answers with the token that was sent, fills the counter of the device and has the address
-- of the client; and this answer makes the client fill its own count, and changes nothing else.
pub keepalive_callback-keepalive_frames :
    (c : Client) (g g' : Gateway) (d : AtlasDevice)
    → Configured c.settings
    → 0 < length c.settings.identity
    → 0 < length (address c.settings)
    → c.registration.ka_token < 65536
    → get_device g c.settings.identity ≡ (g', some d)
    → d.registered ≡ true
    → let bytes = encode (keepalive_frames c.settings c.registration.ka_token) in
      (a : Answer) × (d' : AtlasDevice) × (Endpoints.keepalive_callback c.settings.identity
          (some bytes)
          (length bytes)
          g
        ≡ ok a)
      × (a.response ≡ AtlasCoapResponse.ok)
      × (find c.settings.identity a.gateway.devices ≡ some d')
      × IsKept (address c.settings) d d'
      × (keepalive_callback CoapResponse.ok a.resp_payload c ≡ ok (set_ka_count 3 c))
keepalive_callback-keepalive_frames c g g' d h named addressed small known on =
    let token : ℕ = c.registration.ka_token in
    let (a, d', run, accepted, payload, found, kept) =
      keepalive_callback-alive c.settings.identity (address c.settings) (token % 256)
        (token / 256 % 256) g g' d (named, omega (arith, h.short_identity))
        (addressed, omega (arith, length-ip_port c.settings)) known on in
    (
      a,
      d',
      run,
      accepted,
      found,
      kept,
      ap (λ p. keepalive_callback CoapResponse.ok p c) payload
          ∙ (keepalive_callback-token (token % 256) (token / 256 % 256) [] c).0 (omega arith),
    )

-- The policy that a program of the data plane sets, as a policy of the gateway.
abbrev pub policy_of : Bytes → ClientInfo → AtlasFirewallPolicy
policy_of identity i = record {
  client_id = identity;
  qos = i.qos;
  ppm = i.packets_per_min;
  payload_len = i.packets_maxlen;
}

request_limits :
    (identity : Bytes) (i : ClientInfo) (k : Connector)
    → InfoFits i
    → Connector.policy_frames (with_info i k) ≡ limit_request (policy_of identity i)
request_limits identity i k h =
    let request : Bytes → Bytes → Bytes → List Frame = λ q m l.
      frame Types.data_plane_policy_qos q
      ∷ frame Types.data_plane_policy_packets_per_minute m
      ∷ frame Types.data_plane_policy_packets_maxlen l
      ∷ [] in
    λ j.
      request (host_bytes-htons i.qos h.qos j)
        (host_bytes-htons i.packets_per_min h.packets_per_min j)
        (host_bytes-htons i.packets_maxlen h.packets_maxlen j)

rule_of :
    (f : AtlasFilter) (p : AtlasFirewallPolicy)
    → IsPolicy p
    → p.client_id ≢ []
    → (f' : AtlasFilter) × (Filter.process_command f
          (some (install_bytes p))
          (length (install_bytes p))
        ≡ ok f')
      × (find p.client_id f'.rules ≡ some (packet_policer p.qos p.ppm p.payload_len))
unfolding install_rule
rule_of f p h ne = (
  _,
  process_command-install f p h ∙ ap ok (cond_false _ _ (text_differs p.client_id [] ne)),
  find-store p.client_id p.client_id (packet_policer p.qos p.ppm p.payload_len) f.rules
      ∙ cond_true _ _ (str_eq_self p.client_id),
)

-- The policy that a program of the data plane has set ends up in the firewall. The request that the
-- client sends for it is accepted by the gateway, if the device of the client is registered and the
-- plug-in is connected, and the message that the gateway then writes makes the plug-in install a
-- rule with its three values for the identity of the client. The values must fit 16 bits, and the
-- identity has one to 64 bytes. Of the QoS the rule keeps eight bits.
pub firewall_policy_callback-process_command :
    (identity : Bytes) (i : ClientInfo) (k : Connector) (g g' : Gateway) (d : AtlasDevice)
    (f : AtlasFilter)
    → InfoFits i
    → length identity ≤ 64
    → identity ≢ []
    → get_device g identity ≡ (g', some d)
    → d.registered ≡ true
    → g'.connected ≡ true
    → let request = encode (Connector.policy_frames (with_info i k)) in
      (bytes : Bytes) × (a : Answer) × (f' : AtlasFilter) × (firewall_policy_callback identity
          (some request)
          (length request)
          g
        ≡ ok a)
      × (a.response ≡ AtlasCoapResponse.ok)
      × (a.gateway ≡ sent bytes (with_policy (policy_of identity i) d g'))
      × (Filter.process_command f (some bytes) (length bytes) ≡ ok f')
      × (find identity f'.rules ≡ some (packet_policer i.qos i.packets_per_min i.packets_maxlen))
firewall_policy_callback-process_command identity i k g g' d f h short ne known on up =
    let p : AtlasFirewallPolicy = policy_of identity i in
    let fits : IsPolicy p = record {
      short_client_id = short;
      qos_fits = h.qos;
      ppm_fits = h.packets_per_min;
      payload_len_fits = h.packets_maxlen;
    } in
    let (f', done, rule) = rule_of f p fits ne in
    (
      install_bytes p,
      _,
      f',
      ap (λ fs. firewall_policy_callback identity (some (encode fs)) (length (encode fs)) g)
            (request_limits identity i k h)
          ∙ firewall_policy_callback-limits p g g' d fits known on up,
      refl,
      refl,
      done,
      rule,
    )
