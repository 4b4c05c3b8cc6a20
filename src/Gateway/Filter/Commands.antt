-- ===== src/Gateway/Filter/Commands.antt =====
-- What the plug-in makes of the commands of the gateway, byte for byte as the gateway writes them.
use resfit.Prelude.{
  ℕ, ◌≤◌, ◌<◌, ◌≡◌, refl, ap, ◌∙◌, some, List, [], ◌∷◌, map, arith, length, length-append, Exec, ok,
  ◌>>=◌, ub, spent,
}
use resfit.Prelude.Memory.{Bytes, be16, u16}
use resfit.Command.Frame.{Frame, frame, IsFrame, AllFrames, encode}
use resfit.Gateway.Types
use resfit.Gateway.Batch.{received_commands}
use resfit.Gateway.Batch.Writing.{command_of}
use resfit.Gateway.Batch.Parsing.{received_commands-encode}
use resfit.Gateway.Values.{for_commands, value_text-command_of, value_u16-be16}
use resfit.Gateway.State.{AtlasFirewallPolicy}
use resfit.Gateway.Filter.{
  AtlasFilter, no_rule, rule_body, install_rule, install_firewall_rule, client_id_body, remove_rule,
  remove_firewall_rule, rule_stats, get_firewall_rule_stats, command_body, process_command,
}

-- The identities and numbers of a policy fit their fields.
pub record IsPolicy (p : AtlasFirewallPolicy) : Type 0 where
  pub short_client_id : length p.client_id ≤ 64
  pub qos_fits : p.qos < 65536
  pub ppm_fits : p.ppm < 65536
  pub payload_len_fits : p.payload_len < 65536

abbrev pub id_frame : Bytes → Frame
id_frame id = frame Types.pub_sub_client_id id

abbrev pub limit_frames : AtlasFirewallPolicy → List Frame
limit_frames p =
    frame Types.pub_sub_max_qos (be16 p.qos)
    ∷ frame Types.pub_sub_ppm (be16 p.ppm)
    ∷ frame Types.pub_sub_max_payload_len (be16 p.payload_len)
    ∷ []

abbrev pub policy_frames : AtlasFirewallPolicy → List Frame
policy_frames p = id_frame p.client_id ∷ limit_frames p

pub id_IsFrame : (type : ℕ) (id : Bytes) → type < 65536 → length id ≤ 64 → IsFrame (frame type id)
id_IsFrame type id t h = record { type_fits = t; value_fits = omega arith }

pub policy_frames-AllFrames : (p : AtlasFirewallPolicy) → IsPolicy p → AllFrames (policy_frames p)
policy_frames-AllFrames p h = (
  id_IsFrame _ p.client_id (omega arith) h.short_client_id,
  (
    record { type_fits = omega arith; value_fits = omega arith },
    (
      record { type_fits = omega arith; value_fits = omega arith },
      (record { type_fits = omega arith; value_fits = omega arith }, tt),
    ),
  ),
)

pub policy_frames-length :
    (p : AtlasFirewallPolicy) → IsPolicy p → length (encode (policy_frames p)) < 65536
policy_frames-length p h =
    omega (arith, h.short_client_id, length-append p.client_id (encode (limit_frames p)))

rule_read :
    (p : AtlasFirewallPolicy)
    → IsPolicy p
    → for_commands rule_body no_rule (map command_of (policy_frames p))
      ≡ ok (record {
        client_id = p.client_id;
        max_qos = some p.qos;
        ppm = some p.ppm;
        max_payload_len = some p.payload_len;
      })
unfolding rule_body
rule_read p h = rw (
  value_text-command_of (id_frame p.client_id)
      (id_IsFrame _ p.client_id (omega arith) h.short_client_id),
  value_u16-be16 Types.pub_sub_max_qos p.qos h.qos_fits,
  value_u16-be16 Types.pub_sub_ppm p.ppm h.ppm_fits,
  value_u16-be16 Types.pub_sub_max_payload_len p.payload_len h.payload_len_fits,
)

pub bind_ok {ℓ} : {A : Type ℓ} (m : Exec A) → (m >>= λ a. ok a) ≡ m
bind_ok (ok a) = refl
bind_ok ub = refl
bind_ok spent = refl

abbrev pub around : ℕ → List Frame → Frame
around type fs = frame type (encode fs)

pub around-IsFrame :
    (type : ℕ) (fs : List Frame)
    → type < 65536
    → length (encode fs) < 65536
    → IsFrame (around type fs)
around-IsFrame type fs t h = record { type_fits = t; value_fits = h }

-- The plug-in reads a message with one command.
pub process_command-one :
    (f : AtlasFilter) (frm : Frame)
    → IsFrame frm
    → process_command f (some (encode (frm ∷ []))) (length (encode (frm ∷ [])))
      ≡ command_body f (command_of frm)
unfolding process_command
process_command-one f frm all =
    ap (λ m. m >>= for_commands command_body f) (received_commands-encode frm [] (all, tt))
    ∙ bind_ok (command_body f (command_of frm))

-- The commands inside another are read with the length that the 16 bits of the outer one give.
pub received_inside :
    (frm : Frame) (fs : List Frame)
    → AllFrames (frm ∷ fs)
    → length (encode (frm ∷ fs)) < 65536
    → received_commands (some (encode (frm ∷ fs))) (u16 (length (encode (frm ∷ fs))))
      ≡ ok (map command_of (frm ∷ fs))
received_inside frm fs all small =
    let same : u16 (length (encode (frm ∷ fs))) ≡ length (encode (frm ∷ fs)) = omega arith in
    ap (received_commands (some (encode (frm ∷ fs)))) same ∙ received_commands-encode frm fs all

pub process_command-install :
    (f : AtlasFilter) (p : AtlasFirewallPolicy)
    → IsPolicy p
    → let bytes = encode (around Types.pub_sub_install_firewall_rule (policy_frames p) ∷ []) in
      process_command f (some bytes) (length bytes)
      ≡ ok (
          install_rule f (record {
            client_id = p.client_id;
            max_qos = some p.qos;
            ppm = some p.ppm;
            max_payload_len = some p.payload_len;
          }))
unfolding command_body install_firewall_rule
process_command-install f p h =
    process_command-one f (around Types.pub_sub_install_firewall_rule (policy_frames p))
      (around-IsFrame _ (policy_frames p) (omega arith) (policy_frames-length p h))
    ∙ ap (λ m. m >>= λ cmds. for_commands rule_body no_rule cmds >>= λ r. ok (install_rule f r))
        (received_inside (id_frame p.client_id) (limit_frames p) (policy_frames-AllFrames p h)
          (policy_frames-length p h))
    ∙ ap (λ m. m >>= λ r. ok (install_rule f r)) (rule_read p h)

pub id_frames-length : (id : Bytes) → length id ≤ 64 → length (encode (id_frame id ∷ [])) < 65536
id_frames-length id h = omega (arith, length-append id [])

-- The client id of the two other commands.
id_read :
    (id : Bytes)
    → length id ≤ 64
    → for_commands client_id_body [] (map command_of (id_frame id ∷ [])) ≡ ok id
unfolding client_id_body
id_read id h = rw (value_text-command_of (id_frame id) (id_IsFrame _ id (omega arith) h))

pub process_command-remove :
    (f : AtlasFilter) (id : Bytes)
    → length id ≤ 64
    → let bytes = encode (around Types.pub_sub_remove_firewall_rule (id_frame id ∷ []) ∷ []) in
      process_command f (some bytes) (length bytes) ≡ ok (remove_rule f id)
unfolding command_body remove_firewall_rule
process_command-remove f id h =
    process_command-one f (around Types.pub_sub_remove_firewall_rule (id_frame id ∷ []))
      (around-IsFrame _ (id_frame id ∷ []) (omega arith) (id_frames-length id h))
    ∙ ap (λ m. m >>= λ cmds. for_commands client_id_body [] cmds >>= λ id. ok (remove_rule f id))
        (received_inside (id_frame id) []
          (id_IsFrame Types.pub_sub_client_id id (omega arith) h, tt) (id_frames-length id h))
    ∙ ap (λ m. m >>= λ id. ok (remove_rule f id)) (id_read id h)

pub process_command-get_stats :
    (f : AtlasFilter) (id : Bytes)
    → length id ≤ 64
    → let bytes = encode (around Types.pub_sub_get_stat_firewall_rule (id_frame id ∷ []) ∷ []) in
      process_command f (some bytes) (length bytes) ≡ rule_stats f id
unfolding command_body get_firewall_rule_stats
process_command-get_stats f id h =
    process_command-one f (around Types.pub_sub_get_stat_firewall_rule (id_frame id ∷ []))
      (around-IsFrame _ (id_frame id ∷ []) (omega arith) (id_frames-length id h))
    ∙ ap (λ m. m >>= λ cmds. for_commands client_id_body [] cmds >>= rule_stats f)
        (received_inside (id_frame id) []
          (id_IsFrame Types.pub_sub_client_id id (omega arith) h, tt) (id_frames-length id h))
    ∙ ap (λ m. m >>= rule_stats f) (id_read id h)
