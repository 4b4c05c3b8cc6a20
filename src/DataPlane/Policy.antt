-- ===== src/DataPlane/Policy.antt =====
-- The policy on its whole way: from the data plane through the client to the gateway.
use resfit.Prelude.{
  ℕ, ◌+◌, ◌*◌, ◌/◌, ◌%◌, ◌≤◌, ◌<◌, ◌≡◌, ap, subst, ◌∙◌, List, true, some, [], ◌∷◌, ◌++◌, append-nil,
  arith, length, ok, ◌>>=◌,
}
use resfit.Prelude.Memory.{Bytes, be16, host_bytes, host_bytes-htons}
use resfit.Prelude.Text.{codes}
use resfit.Status.{CoapMethod}
use resfit.Command.Types
use resfit.Command.Frame.{Frame, frame, IsFrame, AllFrames, encode}
use resfit.Command.Sender.{send_batch, send_batch-encode}
use resfit.State.{CoapCallback, Connector, Client}
use resfit.Config.{uri_of}
use resfit.CoapClient.{coap_request}
use resfit.CoapClient.Requested.{Requested}
use resfit.CoapClient.Sending.{coap_request-Requested}
use resfit.Connector.{policy_frames, parse_policy, data_plane_cmd, read_cb}
use resfit.Connector.Policy.{apply_frame, apply_frames, parse_policy-sent}
use resfit.Connector.Messages.{carry_out, read_cb-carry_out}
use resfit.DataPlane.{ClientInfo, info_frames, registration_command}
use resfit.Command.{new}

-- The three values fit 16 bits.
pub record InfoFits (i : ClientInfo) : Type 0 where
  pub qos : i.qos < 65536
  pub packets_per_min : i.packets_per_min < 65536
  pub packets_maxlen : i.packets_maxlen < 65536

-- The connector with the policy of a program of the data plane, active.
abbrev pub with_info : ClientInfo → Connector → Connector
with_info i k = record k {
  policy_qos = i.qos;
  policy_packets_per_min = i.packets_per_min;
  policy_packets_maxlen = i.packets_maxlen;
  active_policy = true;
}

word_of : (n : ℕ) → n < 65536 → n % 256 + n / 256 % 256 * 256 ≡ n
word_of n h = omega arith

stored :
    (i : ClientInfo) (k : Connector)
    → InfoFits i
    → record (apply_frames (info_frames i) k) { active_policy = true } ≡ with_info i k
unfolding apply_frames apply_frame
stored i k h = λ j. record k {
  policy_qos = word_of i.qos h.qos j;
  policy_packets_per_min = word_of i.packets_per_min h.packets_per_min j;
  policy_packets_maxlen = word_of i.packets_maxlen h.packets_maxlen j;
  active_policy = true;
}

policy_cmd :
    (v : Bytes) (c : Client)
    → data_plane_cmd
        (record { type = Types.data_plane_policy; length = length v; value = v ++ [] })
        c
      ≡ parse_policy v (length v) c
unfolding data_plane_cmd
policy_cmd v c = ap (λ w. parse_policy w (length v) c) (append-nil v)

-- The three values in network order, each in a command of its own.
abbrev pub network_frames : ClientInfo → List Frame
network_frames i =
    frame Types.data_plane_policy_qos (be16 i.qos)
    ∷ frame Types.data_plane_policy_packets_per_minute (be16 i.packets_per_min)
    ∷ frame Types.data_plane_policy_packets_maxlen (be16 i.packets_maxlen)
    ∷ []

policy_frames-network :
    (i : ClientInfo) (k : Connector) → InfoFits i → policy_frames (with_info i k) ≡ network_frames i
policy_frames-network i k h =
    let message : Bytes → Bytes → Bytes → List Frame = λ q m l.
      frame Types.data_plane_policy_qos q
      ∷ frame Types.data_plane_policy_packets_per_minute m
      ∷ frame Types.data_plane_policy_packets_maxlen l
      ∷ [] in
    λ j.
      message (host_bytes-htons i.qos h.qos j)
        (host_bytes-htons i.packets_per_min h.packets_per_min j)
        (host_bytes-htons i.packets_maxlen h.packets_maxlen j)

-- The policy that a program of the data plane has set reaches the gateway as it was set: the
-- message of its registration, read by the client, makes the client store the three values, and ask
-- for one PUT request to the path gateway/policy with them, in network order. If libcoap and the
-- kernel grant it, the request is sent and waits for its answer, and if not, nothing is left of it.
-- The values must fit 16 bits, and the hostname and the port of the gateway 128 and six bytes.
pub registration_command-read_cb :
    (fd : ℕ) (i : ClientInfo) (c : Client)
    → InfoFits i
    → length c.settings.gw_hostname ≤ 128
    → length c.settings.gw_port ≤ 6
    → (buf : Bytes) × (c' : Client) × (registration_command i ≡ ok buf)
      × (read_cb fd (some buf) c ≡ ok c')
      × Requested
          (uri_of c.settings (codes "gateway/policy"))
          CoapMethod.put
          (encode (network_frames i))
          5000
          CoapCallback.policy
          (record c { connector = with_info i c.connector })
          c'
unfolding registration_command carry_out
registration_command-read_cb fd i c h host port = (
  encode (outer ∷ []),
  _,
  ap (λ m. m >>= λ b. send_batch (frame Types.data_plane_policy b ∷ []) (some new))
        (send_batch-encode (info_frames i) inner_fits (omega arith))
      ∙ send_batch-encode (outer ∷ []) (outer_fits, tt) (omega arith),
  read_cb-carry_out fd outer [] c (outer_fits, tt)
      ∙ ap (λ m. m >>= carry_out []) (policy_cmd (encode (info_frames i)) c)
      ∙ ap (λ m. m >>= carry_out [])
          (parse_policy-sent (frame Types.data_plane_policy_qos (host_bytes i.qos))
            (frame Types.data_plane_policy_packets_per_minute (host_bytes i.packets_per_min)
              ∷ (frame Types.data_plane_policy_packets_maxlen (host_bytes i.packets_maxlen) ∷ []))
            c inner_fits (omega arith, (omega arith, (omega arith, tt))) host port)
      ∙ ap
          (λ k. ok (
            (coap_request (uri_of c.settings (codes "gateway/policy")) CoapMethod.put
              (encode (policy_frames k)) 5000 CoapCallback.policy (record c { connector = k })).1))
          (stored i c.connector h),
  subst
      (λ fs.
        Requested (uri_of c.settings (codes "gateway/policy")) CoapMethod.put (encode fs) 5000
          CoapCallback.policy stores
          (coap_request (uri_of c.settings (codes "gateway/policy")) CoapMethod.put
            (encode (policy_frames (with_info i c.connector))) 5000 CoapCallback.policy stores).1)
      (policy_frames-network i c.connector h)
      (coap_request-Requested _ _ _ _ _ stores (omega arith)),
)
  where
    outer : Frame
    outer = frame Types.data_plane_policy (encode (info_frames i))

    outer_fits : IsFrame (frame Types.data_plane_policy (encode (info_frames i)))
    outer_fits = record { type_fits = omega arith; value_fits = omega arith }

    inner_fits : AllFrames (info_frames i)
    inner_fits = (
      record { type_fits = omega arith; value_fits = omega arith },
      (
        record { type_fits = omega arith; value_fits = omega arith },
        (record { type_fits = omega arith; value_fits = omega arith }, tt),
      ),
    )

    stores : Client
    stores = record c { connector = with_info i c.connector }
