-- ===== src/Gateway/PubSubAgent/Rules.antt =====
-- From the gateway to the plug-in: what the gateway writes becomes rules of the firewall.
use resfit.Prelude.{
  ◌≤◌, ◌≡◌, ◌≢◌, ap, ◌∙◌, true, none, some, List, [], ◌∷◌, ◌++◌, map, arith, length, if◌then◌else◌,
  cond_true, cond_false, ok, ◌>>=◌,
}
use resfit.Prelude.Memory.{Bytes, host_bytes-htons}
use resfit.Prelude.Text.{str_eq, text_differs}
use resfit.Command.Frame.{encode}
use resfit.Gateway.Types
use resfit.Gateway.Batch.{AtlasCommand, atlas_command, nested_command}
use resfit.Gateway.Batch.Writing.{command_of, nested_command-encode}
use resfit.Gateway.Maps.{find, find-store, find-erase}
use resfit.Gateway.State.{AtlasFirewallPolicy, Gateway}
use resfit.Gateway.PubSubAgent.{write, policy_commands, install_firewall_rule, remove_firewall_rule}
use resfit.Gateway.Filter.{AtlasFilter, packet_policer, install_rule, remove_rule, process_command}
use resfit.Gateway.Filter.Commands.{
  IsPolicy, policy_frames, policy_frames-AllFrames, policy_frames-length, id_frame, id_IsFrame,
  id_frames-length, around, process_command-install, process_command-remove, limit_frames,
}

abbrev pub install_bytes : AtlasFirewallPolicy → Bytes
install_bytes p = encode (around Types.pub_sub_install_firewall_rule (policy_frames p) ∷ [])

abbrev pub remove_bytes : Bytes → Bytes
remove_bytes id = encode (around Types.pub_sub_remove_firewall_rule (id_frame id ∷ []) ∷ [])

-- The gateway with one more message to the plug-in.
abbrev pub sent : Bytes → Gateway → Gateway
sent bytes g = record g { to_agent = g.to_agent ++ bytes ∷ [] }

policy_commands-frames :
    (p : AtlasFirewallPolicy) → IsPolicy p → policy_commands p ≡ map command_of (policy_frames p)
policy_commands-frames p h =
    let with_limits : Bytes → Bytes → Bytes → List AtlasCommand = λ q m l.
      command_of (id_frame p.client_id)
      ∷ atlas_command Types.pub_sub_max_qos 2 (some q)
      ∷ atlas_command Types.pub_sub_ppm 2 (some m)
      ∷ atlas_command Types.pub_sub_max_payload_len 2 (some l)
      ∷ [] in
    λ i.
      with_limits (host_bytes-htons p.qos h.qos_fits i) (host_bytes-htons p.ppm h.ppm_fits i)
        (host_bytes-htons p.payload_len h.payload_len_fits i)

-- A connected gateway writes the bytes of the rule.
pub install_firewall_rule_lem :
    (g : Gateway) (id : Bytes) (p : AtlasFirewallPolicy)
    → IsPolicy p
    → g.connected ≡ true
    → install_firewall_rule g id (some p) ≡ ok (sent (install_bytes p) g)
unfolding install_firewall_rule
install_firewall_rule_lem g id p h up =
    ap
      (λ cmds.
        nested_command Types.pub_sub_install_firewall_rule cmds >>= λ outer. ok (write g outer))
      (policy_commands-frames p h)
    ∙ ap (λ m. m >>= λ outer. ok (write g outer))
        (nested_command-encode Types.pub_sub_install_firewall_rule (id_frame p.client_id)
          (limit_frames p) (omega arith) (policy_frames-AllFrames p h) (policy_frames-length p h))
    ∙ ap ok (cond_true _ _ up)

pub remove_firewall_rule_lem :
    (g : Gateway) (id : Bytes)
    → length id ≤ 64
    → id ≢ []
    → g.connected ≡ true
    → remove_firewall_rule g id ≡ ok (sent (remove_bytes id) g)
unfolding remove_firewall_rule
remove_firewall_rule_lem g id h ne up =
    cond_false _ _ (text_differs id [] ne)
    ∙ ap (λ m. m >>= λ outer. ok (write g outer))
        (nested_command-encode Types.pub_sub_remove_firewall_rule (id_frame id) [] (omega arith)
          (id_IsFrame Types.pub_sub_client_id id (omega arith) h, tt) (id_frames-length id h))
    ∙ ap ok (cond_true _ _ up)

-- If the plug-in is connected and the client id is not empty, with at most 64 bytes, a policy whose
-- values fit 16 bits reaches the firewall: the message that the gateway writes gives the client a
-- new rule with its values, of which the filter keeps eight bits of the QoS, and no other rule
-- changes.
pub install_firewall_rule-process_command :
    (g : Gateway) (f : AtlasFilter) (id : Bytes) (p : AtlasFirewallPolicy)
    → IsPolicy p
    → p.client_id ≢ []
    → g.connected ≡ true
    → (bytes : Bytes) × (install_firewall_rule g id (some p) ≡ ok (sent bytes g))
      × ((f' : AtlasFilter) × (process_command f (some bytes) (length bytes) ≡ ok f')
          × ((d : Bytes)
              → find d f'.rules ≡ (
                  if str_eq p.client_id d
                  then some (packet_policer p.qos p.ppm p.payload_len)
                  else find d f.rules)))
unfolding install_rule
install_firewall_rule-process_command g f id p h ne up = (
  install_bytes p,
  install_firewall_rule_lem g id p h up,
  (
    _,
    process_command-install f p h ∙ ap ok (cond_false _ _ (text_differs p.client_id [] ne)),
    λ d. find-store d p.client_id (packet_policer p.qos p.ppm p.payload_len) f.rules,
  ),
)

-- Under the same conditions on the client id, the message by which the gateway removes a rule
-- leaves the firewall without a rule for the client, and changes no other rule.
pub remove_firewall_rule-process_command :
    (g : Gateway) (f : AtlasFilter) (id : Bytes)
    → length id ≤ 64
    → id ≢ []
    → g.connected ≡ true
    → (bytes : Bytes) × (remove_firewall_rule g id ≡ ok (sent bytes g))
      × ((f' : AtlasFilter) × (process_command f (some bytes) (length bytes) ≡ ok f')
          × ((d : Bytes) → find d f'.rules ≡ (if str_eq id d then none else find d f.rules)))
unfolding remove_rule
remove_firewall_rule-process_command g f id h ne up = (
  remove_bytes id,
  remove_firewall_rule_lem g id h ne up,
  (
    _,
    process_command-remove f id h ∙ ap ok (cond_false _ _ (text_differs id [] ne)),
    λ d. find-erase d id f.rules,
  ),
)
