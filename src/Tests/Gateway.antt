-- ===== src/Tests/Gateway.antt =====
-- The registration, the policy, the telemetry and the configuration at a concrete client.
use resfit.Prelude.{
  ℕ, ◌≡◌, refl, arith, Bool, true, false, Option, none, some, [], ◌∷◌, Exec, ok, ub,
}
use resfit.Prelude.Memory.{Bytes}
use resfit.Prelude.Text.{codes}
use resfit.Status.{CoapResponse}
use resfit.Command.Types
use resfit.Command.Frame.{frame}
use resfit.State.{Payload, Client, Feature}
use resfit.Connector.{parse_policy}
use resfit.Connector.Policy.{parse_policy-short}
use resfit.Register.{set_ka_count, keepalive_callback}
use resfit.Register.Again.{RegistersAgain}
use resfit.Register.KeepAlive.{left, fail_times, fail_times_lem}
use resfit.Register.Requests.{Configured}
use resfit.Telemetry.{find_scan, threshold_alert_alarm_cb}
use resfit.Tests.{settings, load1, client}
use resfit.Tests.Timers.{client-Watched}
use resfit.Telemetry.Payloads.{payload, threshold_alert_procs_cb}
use resfit.Telemetry.Payloads.Values.{
  Scanned, threshold_alert_alarm_cb-procs, threshold_alert_procs_cb-null,
}
use resfit.Telemetry.Alerts.Threshold.{scan_of, scan_frame}
use resfit.Telemetry.Alerts.Push.{rate}

client-Configured : Configured settings
client-Configured = record {
  short_identity = omega arith;
  short_hostname = omega arith;
  short_port = omega arith;
}

fail_times_lem_example :
    (fail_times 255 client ≡ ok (set_ka_count 1 client))
    × (256 ≡ left 0
        → (c' : Client) × (keepalive_callback CoapResponse.timeout none (set_ka_count 1 client)
            ≡ ok c')
          × RegistersAgain client c')
fail_times_lem_example =
    fail_times_lem 255 client (omega arith) (omega arith) client-Configured client-Watched

parse_policy-short_example : parse_policy (4 ∷ 76 ∷ 0 ∷ 1 ∷ 5 ∷ []) 5 client ≡ ub
parse_policy-short_example =
    parse_policy-short (frame Types.data_plane_policy_qos (5 ∷ [])) client
      (record { type_fits = omega arith; value_fits = omega arith }) refl (omega arith)

-- A payload callback that always has two bytes.
abbrev two_bytes : Payload → Bool → Client → Exec (Option Bytes)
two_bytes p use_threshold c = ok (some (1 ∷ 2 ∷ []))

abbrev atoi_5683 : Bytes → Option ℕ
atoi_5683 text = some 5683

-- The client, registered, with a scan of the number of processes.
abbrev procs : Feature
procs = record {
  uri_path = codes "gateway/telemetry/sysinfo/procs";
  payload_cb = Payload.procs;
  push_id = none;
  threshold_id = some 12;
}

abbrev scanning : Client
scanning = record client {
  features = load1 ∷ (procs ∷ []);
  registration = record (client.registration) { registered = true };
  procs_threshold = 40;
}

threshold_alert_alarm_cb-procs_example :
    (c' : Client) × (threshold_alert_alarm_cb payload 12 scanning ≡ ok c')
    × Scanned procs 42 scanning c'
unfolding find_scan
threshold_alert_alarm_cb-procs_example =
    threshold_alert_alarm_cb-procs 12 procs
      (record {
        uptime = 3600;
        totalram = 512;
        freeram = 256;
        sharedram = 0;
        bufferram = 0;
        totalswap = 0;
        freeswap = 0;
        procs = 42;
        load1 = 0;
        load5 = 0;
        load15 = 0;
      })
      scanning refl refl refl refl (omega arith) (omega arith) (omega arith) (omega arith)

threshold_alert_procs_cb-null_example :
    threshold_alert_procs_cb (λ text. (0, false)) (some (2 ∷ 2 ∷ 0 ∷ 2 ∷ 0 ∷ 10 ∷ [])) 6 client ≡ ub
unfolding scan_of scan_frame rate
threshold_alert_procs_cb-null_example =
    threshold_alert_procs_cb-null (λ text. (0, false))
      (frame Types.telemetry_alert_int_scan_rate (0 ∷ 10 ∷ [])) [] 10 client
      (record { type_fits = omega arith; value_fits = omega arith }, tt) (omega arith) refl
