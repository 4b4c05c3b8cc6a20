-- ===== src/DataPlane.antt =====
-- atlas_client/src/data_plane/atlas_client.c: the library that a program of the data plane links, at
-- the other end of the connector's socket. A message is the bytes of one `write`; reconnecting when
-- the socket is closed is not modelled.
pub mod Policy
pub mod Statistics
pub mod Feedback
use resfit.Prelude.{
  ℕ, ◌+◌, ◌/◌, ◌%◌, Bool, true, false, Option, none, some, List, [], ◌∷◌, ltb, ◌==◌, if◌then◌else◌,
  Exec, ok, ub, ◌>>=◌, checked,
}
use resfit.Prelude.Memory.{Bytes, htons, host_bytes}
use resfit.Status.{Status}
use resfit.Command.{new}
use resfit.Command.Types
use resfit.Command.Frame.{Frame, frame}
use resfit.Command.Sender.{send_batch}

-- `client_info_t`
pub record ClientInfo : Type 0 where
  pub qos : ℕ
  pub packets_per_min : ℕ
  pub packets_maxlen : ℕ

-- The commands of the policy, each value as it lies in memory.
abbrev pub info_frames : ClientInfo → List Frame
info_frames i =
    frame Types.data_plane_policy_qos (host_bytes i.qos)
    ∷ (frame Types.data_plane_policy_packets_per_minute (host_bytes i.packets_per_min)
        ∷ (frame Types.data_plane_policy_packets_maxlen (host_bytes i.packets_maxlen) ∷ []))

-- The message of `send_registration_command`: a batch inside a command.
unfoldable pub registration_command : ClientInfo → Exec Bytes
registration_command i = do
  inner ← send_batch (info_frames i) (some new)
  send_batch (frame Types.data_plane_policy inner ∷ []) (some new)

-- `payload_samples`, `payload_total` and `payload_avg`, which are ints that are never negative
pub record PacketStatistics : Type 0 where
  pub payload_samples : ℕ
  pub payload_total : ℕ
  pub payload_avg : ℕ

abbrev pub no_packets : PacketStatistics
no_packets = record { payload_samples = 0; payload_total = 0; payload_avg = 0 }

-- An int that is not negative; overflow is undefined.
abbrev pub to_int : ℕ → Exec ℕ
to_int n = checked (ltb n 2147483648) n

-- `atlas_pkt_received` of a length that is not negative
unfoldable pub pkt_received : ℕ → PacketStatistics → Exec PacketStatistics
pkt_received payload_len s = do
  samples ← to_int (s.payload_samples + 1)
  total ← to_int (s.payload_total + payload_len)
  ok (record { payload_samples = samples; payload_total = total; payload_avg = total / samples })

-- The bytes of an int that is not negative as they lie in memory.
abbrev pub int_bytes : ℕ → Bytes
int_bytes n = n % 256 ∷ (n / 256 % 256 ∷ (n / 65536 % 256 ∷ (n / 16777216 % 256 ∷ [])))

abbrev pub statistics_frames : PacketStatistics → List Frame
statistics_frames s =
    frame Types.data_plane_packets_per_minute (int_bytes s.payload_samples)
    ∷ (frame Types.data_plane_packets_avg (int_bytes s.payload_avg) ∷ [])

-- `send_statistics_command`: the message, and the statistics afterwards
unfoldable pub statistics_command : PacketStatistics → Exec (Bytes × PacketStatistics)
statistics_command s = do buf ← send_batch (statistics_frames s) (some new); ok (buf, no_packets)

abbrev pub scores_max : ℕ
scores_max = 100

-- `atlas_feedback_t`, the identity without its closing 0
pub record SensorFeedback : Type 0 where
  pub identity : Bytes
  pub sensor_type : ℕ
  pub sensor_score : ℕ
  pub time_score : ℕ

abbrev pub feedback_frames : SensorFeedback → List Frame
feedback_frames f =
    frame Types.data_plane_feedback_identity f.identity
    ∷ (frame Types.data_plane_feedback_sensor_type (host_bytes (htons f.sensor_type))
        ∷ (frame Types.data_plane_feedback_sensor (host_bytes (htons f.sensor_score))
            ∷ (frame Types.data_plane_feedback_response_time (host_bytes (htons f.time_score))
                ∷ [])))

-- The message of `send_feedback_command`
unfoldable pub feedback_command : SensorFeedback → Exec Bytes
feedback_command f = do
  inner ← send_batch (feedback_frames f) (some new)
  send_batch (frame Types.data_plane_feedback inner ∷ []) (some new)

-- The loop of `atlas_reputation_feedback`: each element is checked and then sent. (The identity is
-- an array, so it is never NULL.) The status, and the messages that were written, in order.
unfoldable pub send_feedbacks : List SensorFeedback → Exec (Status × List Bytes)
unfolding feedback_command
send_feedbacks [] = ok (Status.ok, [])
send_feedbacks (f ∷ fs) =
    if ltb scores_max f.sensor_score
    then ok (Status.invalid_input, [])
    else if ltb scores_max f.time_score
    then ok (Status.invalid_input, [])
    else (do
      message ← feedback_command f
      (status, messages) ← send_feedbacks fs
      ok (status, message ∷ messages))

-- `atlas_reputation_feedback`
unfoldable pub reputation_feedback :
    (feedback : Option (List SensorFeedback)) → Exec (Status × List Bytes)
unfolding send_feedbacks
reputation_feedback none = ok (Status.invalid_input, [])
reputation_feedback (some []) = ok (Status.invalid_input, [])
reputation_feedback (some (f ∷ fs)) = send_feedbacks (f ∷ fs)
