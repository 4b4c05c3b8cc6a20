-- ===== src/State.antt =====
-- The state of the client process (atlas_client/src): the static variables of its files, one field
-- each, with what the operating system and libcoap answer and what was handed to them.
-- Callbacks are named by data types; a file descriptor, an alarm id or a socket is an `Option`,
-- none for -1.
use resfit.Prelude.{ℕ, Bool, Option, List}
use resfit.Prelude.Memory.{Bytes}
use resfit.Status.{CoapMethod}

-- `atlas_sched_cb_t`: the functions that the client hands to the scheduler
pub data SchedCallback : Type 0 where
  alarm_trigger coap_server coap_client data_plane_read data_plane_accept : SchedCallback

-- `atlas_sched_entry_t`
pub record SchedEntry : Type 0 where
  pub fd : ℕ
  pub callback : SchedCallback
  pub dirty : Bool

-- `atlas_alarm_cb_t`: the functions that the client hands to `atlas_alarm_set`
pub data AlarmCallback : Type 0 where
  keepalive register policy push_alert threshold_alert request_timeout : AlarmCallback
  shutdown restart : AlarmCallback

-- `atlas_alarm_entry_t`
pub record AlarmEntry : Type 0 where
  pub alarm_id : ℕ
  pub callback : AlarmCallback
  pub run_once : Bool

-- `atlas_coap_client_cb_t`: the functions that the client hands to `atlas_coap_client_request`
pub data CoapCallback : Type 0 where
  registered keepalive telemetry policy feature_reputation feedback : CoapCallback

-- `atlas_coap_client_req_t`; contexts and sessions of libcoap are numbers
pub record Request : Type 0 where
  pub coap_fd : ℕ
  pub alarm_id : ℕ
  pub ctx : ℕ
  pub session : ℕ
  pub uri : Bytes
  pub token : ℕ
  pub callback : CoapCallback
  pub dirty : Bool

-- `atlas_telemetry_payload_cb`: the functions that the client hands to `atlas_telemetry_add`
pub data Payload : Type 0 where
  hostname kern_info uptime totalram freeram sharedram bufferram totalswap freeswap procs : Payload
  load1 load5 load15 packets_per_minute packets_avg : Payload

-- `atlas_telemetry_t`
pub record Feature : Type 0 where
  pub uri_path : Bytes
  pub payload_cb : Payload
  pub push_id : Option ℕ
  pub threshold_id : Option ℕ

-- `struct sysinfo`, the fields that the client reads; all 64-bit but `procs`, which is 16-bit
pub record Sysinfo : Type 0 where
  pub uptime : ℕ
  pub totalram : ℕ
  pub freeram : ℕ
  pub sharedram : ℕ
  pub bufferram : ℕ
  pub totalswap : ℕ
  pub freeswap : ℕ
  pub procs : ℕ
  pub load1 : ℕ
  pub load5 : ℕ
  pub load15 : ℕ

-- `struct utsname`, the fields that the client reads
pub record Uname : Type 0 where
  pub sysname : Bytes
  pub nodename : Bytes
  pub release : Bytes
  pub version : Bytes
  pub machine : Bytes

-- `struct itimerspec`
pub record TimerSpec : Type 0 where
  pub interval_sec : ℕ
  pub interval_nsec : ℕ
  pub value_sec : ℕ
  pub value_nsec : ℕ

-- What `timerfd_create` and `timerfd_settime` answer: no descriptor, a descriptor that cannot be
-- set, or a running timer.
pub data TimerAnswer : Type 0 where
  no_fd : TimerAnswer
  not_set : ℕ → TimerAnswer
  running : ℕ → TimerAnswer

-- How far libcoap gets with a request: the first call that fails, or a context, a session and the
-- descriptor of the context.
pub data CoapAnswer : Type 0 where
  bad_uri unresolved no_context no_session no_pdu no_token : CoapAnswer
  made : (ctx session : ℕ) → (fd : Option ℕ) → CoapAnswer

-- A request that was handed to `coap_send`.
pub record Sent : Type 0 where
  pub uri : Bytes
  pub method : CoapMethod
  pub payload : Bytes
  pub token : ℕ

-- The surroundings: the answers still to come, and what was done so far, the newest first.
pub record Os : Type 0 where
  pub timers : List TimerAnswer
  pub coaps : List CoapAnswer
  pub sysinfo : Option Sysinfo
  -- what `read` gives of /etc/hostname
  pub hostname : Option Bytes
  pub uname : Option Uname
  pub armed : List (ℕ × TimerSpec)
  pub closed : List ℕ
  pub sent : List Sent
  pub written : List (ℕ × Bytes)

-- The static variables of register/atlas_register.c
pub record Registration : Type 0 where
  pub registered : Bool
  -- a uint16_t
  pub ka_token : ℕ
  -- a uint8_t
  pub ka_count : ℕ
  pub ka_alarm_id : Option ℕ

-- The static variables of data_plane_connector/atlas_data_plane_connector.c, all uint16_t
pub record Connector : Type 0 where
  pub connected_socket : Option ℕ
  pub policy_qos : ℕ
  pub policy_packets_per_min : ℕ
  pub policy_packets_maxlen : ℕ
  pub active_policy : Bool
  pub packets_per_min : ℕ
  pub packets_avg : ℕ

-- The static variables of utils/atlas_config.c and the identity of identity/atlas_identity.c, with
-- what `atlas_cfg_get_local_ip` answers for the interface.
pub record Settings : Type 0 where
  pub identity : Bytes
  pub gw_hostname : Bytes
  pub gw_port : Bytes
  pub local_iface : Bytes
  -- a uint16_t
  pub local_port : ℕ
  pub local_ip : Option Bytes

pub record Client : Type 0 where
  pub sched_entry : List SchedEntry
  pub alarm_entry : List AlarmEntry
  pub req_entry : List Request
  pub next_token : ℕ
  pub features : List Feature
  pub registration : Registration
  pub connector : Connector
  pub cmd_in_progress : Bool
  pub procs_threshold : ℕ
  pub settings : Settings
  pub os : Os
