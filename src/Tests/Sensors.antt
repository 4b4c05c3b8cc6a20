-- ===== src/Tests/Sensors.antt =====
-- The data plane, and its messages at the client, at concrete values.
use resfit.Prelude.{◌≡◌, arith, inr, some, [], ◌∷◌, ◌++◌, map, ok}
use resfit.Prelude.Memory.{Bytes}
use resfit.Prelude.Text.{codes}
use resfit.Status.{Status, CoapMethod}
use resfit.Command.Frame.{encode}
use resfit.State.{CoapCallback, Client}
use resfit.Config.{uri_of}
use resfit.CoapClient.Requested.{Requested}
use resfit.Connector.{read_cb}
use resfit.DataPlane.{
  ClientInfo, registration_command, PacketStatistics, no_packets, statistics_command,
  SensorFeedback, reputation_feedback,
}
use resfit.DataPlane.Policy.{with_info, network_frames, registration_command-read_cb}
use resfit.DataPlane.Statistics.{statistics_command-read_cb}
use resfit.DataPlane.Feedback.{message_of, reputation_feedback_lem}
use resfit.Tests.{settings, client}

abbrev info : ClientInfo
info = record { qos = 2; packets_per_min = 300; packets_maxlen = 1024 }

registration_command-read_cb_example :
    (buf : Bytes) × (c' : Client) × (registration_command info ≡ ok buf)
    × (read_cb 7 (some buf) client ≡ ok c')
    × Requested
        (uri_of settings (codes "gateway/policy"))
        CoapMethod.put
        (encode (network_frames info))
        5000
        CoapCallback.policy
        (record client { connector = with_info info client.connector })
        c'
registration_command-read_cb_example =
    registration_command-read_cb 7 info client
      (record { qos = omega arith; packets_per_min = omega arith; packets_maxlen = omega arith })
      (omega arith) (omega arith)

-- More packets than 16 bits count.
abbrev many : PacketStatistics
many = record { payload_samples = 70000; payload_total = 700000; payload_avg = 10 }

statistics_command-read_cb_example :
    (buf : Bytes) × (statistics_command many ≡ ok (buf, no_packets))
    × (read_cb 7 (some buf) client
        ≡ ok (record client {
          connector = record (client.connector) { packets_per_min = 4464; packets_avg = 10 };
        }))
statistics_command-read_cb_example = statistics_command-read_cb 7 many client

abbrev good : SensorFeedback
good = record { identity = codes "sensor-3"; sensor_type = 101; sensor_score = 90; time_score = 80 }

abbrev too_high : SensorFeedback
too_high = record {
  identity = codes "sensor-4";
  sensor_type = 101;
  sensor_score = 90;
  time_score = 101;
}

reputation_feedback_lem_example :
    (reputation_feedback (some (good ∷ [])) ≡ ok (Status.ok, map message_of (good ∷ [])))
    × (reputation_feedback (some (good ∷ ([] ++ (too_high ∷ []))))
        ≡ ok (Status.invalid_input, map message_of (good ∷ [])))
reputation_feedback_lem_example =
    reputation_feedback_lem good [] [] too_high
      (
        record {
          short_identity = omega arith;
          sensor_allowed = omega arith;
          time_allowed = omega arith;
        },
        tt,
      )
      (inr (omega arith))
