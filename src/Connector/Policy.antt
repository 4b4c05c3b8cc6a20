-- ===== src/Connector/Policy.antt =====
-- The policy between the data plane and the gateway.
use resfit.Prelude.{
  ℕ, ◌+◌, ◌*◌, ◌≤◌, ◌<◌, ◌≡◌, refl, ap, ◌∙◌, Bool, true, false, List, [], ◌∷◌, ◌++◌, arith, length,
  length-append, ◌||◌, ◌==◌, if◌then◌else◌, Exec, ok, ub, ◌>>=◌, cond_false,
}
use resfit.Prelude.Memory.{Bytes, load_u16, load_u16_first, load_u16_short}
use resfit.Prelude.Text.{codes}
use resfit.Status.{CoapMethod}
use resfit.Command.{new}
use resfit.Command.Types
use resfit.Command.Frame.{Frame, IsFrame, AllFrames, encode}
use resfit.Command.Walk.{views, run_body, for_each_cmd-views}
use resfit.Command.Accept.{set_raw-encode}
use resfit.Command.Sender.{send_batch-encode}
use resfit.State.{CoapCallback, Connector, Client}
use resfit.Config.{coap_get_uri, uri_of}
use resfit.Config.Bounds.{coap_get_uri_fits}
use resfit.CoapClient.{coap_request}
use resfit.Connector.{
  policy_frames, send_policy_command, policy_body, activate, policy_read, parse_policy,
}

-- The word that the first two bytes of a value are in memory.
abbrev pub word : Bytes → ℕ
word (a ∷ b ∷ v) = a + b * 256
word _ = 0

-- What a frame of a policy sets.
unfoldable pub apply_frame : Frame → Connector → Connector
apply_frame f k =
    if f.type == Types.data_plane_policy_qos
    then record k { policy_qos = word f.value }
    else if f.type == Types.data_plane_policy_packets_per_minute
    then record k { policy_packets_per_min = word f.value }
    else if f.type == Types.data_plane_policy_packets_maxlen
    then record k { policy_packets_maxlen = word f.value }
    else k

-- The policy after a list of frames: for each value, the last frame that sets it.
unfoldable pub apply_frames : List Frame → Connector → Connector
apply_frames [] k = k
apply_frames (f ∷ fs) k = apply_frames fs (apply_frame f k)

-- Every value has two bytes at least.
abbrev pub AllWords : List Frame → Type 0
AllWords [] = Unit {0}
AllWords (f ∷ fs) = (2 ≤ length f.value) × AllWords fs

load-word : (v q : Bytes) → 2 ≤ length v → load_u16 (v ++ q) 0 ≡ ok (word v)
load-word [] q h = absurd (omega arith)
load-word (a ∷ []) q h = absurd (omega arith)
load-word (a ∷ b ∷ v) q h = load_u16_first a b (v ++ q)

policy_body_at :
    (f : Frame) (q : Bytes) (k : Connector)
    → 2 ≤ length f.value
    → policy_body (record { type = f.type; length = length f.value; value = f.value ++ q }) k
      ≡ ok (apply_frame f k, false)
unfolding policy_body apply_frame
policy_body_at f q k h = ground (arith, load-word f.value q h)

abbrev go_on : List Frame → Connector × Bool → Exec Connector
go_on fs (k, true) = ok k
go_on fs (k, false) = run_body policy_body (views fs) k

run_body-policy :
    (fs : List Frame) (k : Connector)
    → AllWords fs
    → run_body policy_body (views fs) k ≡ ok (apply_frames fs k)
unfolding run_body apply_frames
run_body-policy [] k h = refl
run_body-policy (f ∷ fs) k h =
    ap (λ m. m >>= go_on fs) (policy_body_at f (encode fs) k h.0)
    ∙ run_body-policy fs (apply_frame f k) h.1

parse_policy-batch :
    (f : Frame) (fs : List Frame) (c : Client)
    → AllFrames (f ∷ fs)
    → parse_policy (encode (f ∷ fs)) (length (encode (f ∷ fs))) c
      ≡ (run_body policy_body (views (f ∷ fs)) c.connector >>= activate c)
unfolding parse_policy policy_read
parse_policy-batch f fs c all =
    let some_bytes : (length (encode (f ∷ fs)) == 0) ≡ false = ground arith in
    cond_false _ _ some_bytes
    ∙ ap (λ m. m >>= policy_read c) (set_raw-encode new f fs all)
    ∙ ap (λ m. m >>= activate c) (for_each_cmd-views policy_body f fs c.connector all)

-- A policy that is not active is not sent. An active one is one PUT request to the path
-- gateway/policy, whose payload is the bytes of three commands, each with its value in network
-- order. The hostname and the port of the gateway must fit 128 and six bytes.
pub send_policy_command_lem :
    (c : Client)
    → length c.settings.gw_hostname ≤ 128
    → length c.settings.gw_port ≤ 6
    → send_policy_command c ≡ (
        if c.connector.active_policy
        then ok (
            (coap_request
              (uri_of c.settings (codes "gateway/policy"))
              CoapMethod.put
              (encode (policy_frames c.connector))
              5000
              CoapCallback.policy
              c).1)
        else ok c)
unfolding send_policy_command
send_policy_command_lem c h p =
    ap (λ m. if c.connector.active_policy then m else ok c)
      (ap
          (λ m. m >>= λ b. coap_get_uri c.settings (codes "gateway/policy") >>= λ u.
            ok ((coap_request u CoapMethod.put b 5000 CoapCallback.policy c).1))
          (send_batch-encode (policy_frames c.connector)
            (
              record { type_fits = omega arith; value_fits = omega arith },
              (
                record { type_fits = omega arith; value_fits = omega arith },
                (record { type_fits = omega arith; value_fits = omega arith }, tt),
              ),
            )
            (omega arith))
        ∙ ap
            (λ m. m >>= λ u. ok (
              (coap_request u CoapMethod.put (encode (policy_frames c.connector)) 5000
                CoapCallback.policy c).1))
            (coap_get_uri_fits c.settings (codes "gateway/policy") h p (omega arith)))

-- A policy of the data plane, of one frame or more with values of two bytes or more, is stored and
-- sent on at once: each value is that of the last frame that sets it, as its first two bytes lie
-- in memory, and the request carries the new values in network order. Types and lengths must fit
-- 16 bits, and the hostname and the port of the gateway 128 and six bytes.
pub parse_policy-sent :
    (f : Frame) (fs : List Frame) (c : Client)
    → AllFrames (f ∷ fs)
    → AllWords (f ∷ fs)
    → length c.settings.gw_hostname ≤ 128
    → length c.settings.gw_port ≤ 6
    → let k = record (apply_frames (f ∷ fs) c.connector) { active_policy = true } in
      parse_policy (encode (f ∷ fs)) (length (encode (f ∷ fs))) c
      ≡ ok (
          (coap_request
            (uri_of c.settings (codes "gateway/policy"))
            CoapMethod.put
            (encode (policy_frames k))
            5000
            CoapCallback.policy
            (record c { connector = k })).1)
parse_policy-sent f fs c all words h p =
    parse_policy-batch f fs c all
    ∙ ap (λ m. m >>= activate c) (run_body-policy (f ∷ fs) c.connector words)
    ∙ send_policy_command_lem
        (record c {
          connector = record (apply_frames (f ∷ fs) c.connector) { active_policy = true };
        })
        h p

-- The three types of a policy's commands.
abbrev pub is_policy_value : ℕ → Bool
is_policy_value t =
    t == Types.data_plane_policy_qos
    || (t == Types.data_plane_policy_packets_per_minute
        || t == Types.data_plane_policy_packets_maxlen)

policy_body_short :
    (t n : ℕ) (v : Bytes) (k : Connector)
    → is_policy_value t ≡ true
    → length v < 2
    → policy_body (record { type = t; length = n; value = v }) k ≡ ub
unfolding policy_body
policy_body_short t n v k h short = ground (arith, load_u16_short v short)

-- A policy that consists of one value of fewer than two bytes is read past the end of its block:
-- the length of the command is not looked at.
pub parse_policy-short :
    (f : Frame) (c : Client)
    → IsFrame f
    → is_policy_value f.type ≡ true
    → length f.value < 2
    → parse_policy (encode (f ∷ [])) (length (encode (f ∷ []))) c ≡ ub
unfolding run_body
parse_policy-short f c fits h short =
    parse_policy-batch f [] c (fits, tt)
    ∙ ap (λ m. (m >>= go_on []) >>= activate c)
        (policy_body_short f.type (length f.value) (f.value ++ []) c.connector h
          (omega (arith, length-append f.value [])))
