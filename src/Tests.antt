-- ===== src/Tests.antt =====
-- Each theorem of the library at a concrete input, and the data that the inputs share.
mod Frames
mod Timers
mod Requests
mod Gateway
mod Sensors
mod Firewall
mod Endpoints
mod DeviceCommands
mod System
use resfit.Prelude.{ℕ, Bool, true, false, Option, none, some, List, [], ◌∷◌}
use resfit.Prelude.Memory.{Bytes}
use resfit.Prelude.Text.{codes}
use resfit.Command.Types
use resfit.Command.Frame.{Frame, frame}
use resfit.State.{
  SchedCallback, SchedEntry, AlarmCallback, AlarmEntry, CoapCallback, Request, Payload, Feature,
  TimerAnswer, running, CoapAnswer, made, Os, Registration, Connector, Settings, Client,
}
use resfit.Scheduler.{entry}
use resfit.Alarm.{alarm}
use resfit.CoapClient.{request}
use resfit.Telemetry.{feature}

-- A policy of the data plane.
abbrev qos_frame : Frame
qos_frame = frame Types.data_plane_policy_qos (5 ∷ 0 ∷ [])

abbrev rate_frame : Frame
rate_frame = frame Types.data_plane_policy_packets_per_minute (44 ∷ 1 ∷ [])

abbrev settings : Settings
settings = record {
  identity = codes "sensor-7";
  gw_hostname = codes "gw.example";
  gw_port = codes "10100";
  local_iface = codes "eth0";
  local_port = 10200;
  local_ip = some (codes "10.0.0.7");
}

abbrev load1 : Feature
load1 = feature (codes "gateway/telemetry/sysinfo/load1") Payload.load1

abbrev load15 : Feature
load15 = feature (codes "gateway/telemetry/sysinfo/load15") Payload.load15

-- A request that waits on descriptor 8 with alarm 9.
abbrev pending : Request
pending =
    request 8 9 1 1 (codes "coaps://gw.example:10100/gateway/register") 41 CoapCallback.registered

-- A client with one request that waits, the next timer and the next request still to come.
abbrev client : Client
client = record {
  sched_entry = entry 9 SchedCallback.alarm_trigger ∷ (entry 8 SchedCallback.coap_client ∷ []);
  alarm_entry = alarm 9 AlarmCallback.request_timeout true ∷ [];
  req_entry = pending ∷ [];
  next_token = 42;
  features = load1 ∷ (load15 ∷ []);
  registration = record { registered = false; ka_token = 513; ka_count = 0; ka_alarm_id = none };
  connector = record {
    connected_socket = some 7;
    policy_qos = 0;
    policy_packets_per_min = 0;
    policy_packets_maxlen = 0;
    active_policy = true;
    packets_per_min = 0;
    packets_avg = 0;
  };
  cmd_in_progress = false;
  procs_threshold = 0;
  settings = settings;
  os = record {
    timers = running 10 ∷ [];
    coaps = made 2 2 (some 11) ∷ [];
    sysinfo = some (record {
      uptime = 3600;
      totalram = 512;
      freeram = 256;
      sharedram = 0;
      bufferram = 0;
      totalswap = 0;
      freeswap = 0;
      procs = 42;
      load1 = 0;
      load5 = 0;
      load15 = 0;
    });
    hostname = none;
    uname = none;
    armed = [];
    closed = [];
    sent = [];
    written = [];
  };
}
