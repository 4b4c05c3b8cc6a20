-- ===== src/Connector.antt =====
-- atlas_client/src/data_plane_connector/atlas_data_plane_connector.c: the policy that the data plane
-- sets and the gateway is sent, and the messages that go through the client between the two.
pub mod Policy
pub mod Messages
use resfit.Prelude.{
  ℕ, Bool, true, false, Option, none, some, List, [], ◌∷◌, length, ◌==◌, if◌then◌else◌, Exec, ok,
  ◌>>=◌,
}
use resfit.Prelude.Memory.{Bytes, u16, htons, host_bytes, load_u16}
use resfit.Prelude.Text.{codes}
use resfit.Status.{Status, CoapResponse, CoapMethod}
use resfit.Command.{CmdBatch, Cmd, new, add, sent_bytes, set_raw, for_each_cmd}
use resfit.Command.Types
use resfit.Command.Frame.{Frame, frame}
use resfit.Command.Sender.{send_batch}
use resfit.State.{SchedCallback, AlarmCallback, CoapCallback, Connector, Client}
use resfit.Config.{coap_get_uri}
use resfit.Scheduler.{add_entry, del_entry}
use resfit.Alarm.{alarm_set}
use resfit.CoapClient.{coap_request}

abbrev pub policy_timeout_ms : ℕ
policy_timeout_ms = 5000

-- The commands of the policy: each value is in network order.
abbrev pub policy_frames : Connector → List Frame
policy_frames k =
    frame Types.data_plane_policy_qos (host_bytes (htons k.policy_qos))
    ∷ frame Types.data_plane_policy_packets_per_minute (host_bytes (htons k.policy_packets_per_min))
    ∷ frame Types.data_plane_policy_packets_maxlen (host_bytes (htons k.policy_packets_maxlen))
    ∷ []

-- `send_policy_command`
unfoldable pub send_policy_command : Client → Exec Client
send_policy_command c =
    if c.connector.active_policy
    then (do
      buf ← send_batch (policy_frames c.connector) (some new)
      uri ← coap_get_uri c.settings (codes "gateway/policy")
      ok ((coap_request uri CoapMethod.put buf policy_timeout_ms CoapCallback.policy c).1))
    else ok c

-- `policy_alarm_callback`
abbrev pub policy_alarm_callback : Client → Exec Client
policy_alarm_callback c = send_policy_command c

-- `policy_callback`
unfoldable pub policy_callback : CoapResponse → Client → Client
policy_callback CoapResponse.ok c = c
policy_callback resp c = (alarm_set policy_timeout_ms AlarmCallback.policy true c).1

-- `set_policy_qos`, `set_policy_packets_per_min` and `set_policy_packets_maxlen`: two bytes are
-- copied, whatever the length of the command is.
abbrev pub set_policy_qos : Bytes → Connector → Exec Connector
set_policy_qos value k = do n ← load_u16 value 0; ok (record k { policy_qos = n })

abbrev pub set_policy_packets_per_min : Bytes → Connector → Exec Connector
set_policy_packets_per_min value k = do
  n ← load_u16 value 0
  ok (record k { policy_packets_per_min = n })

abbrev pub set_policy_packets_maxlen : Bytes → Connector → Exec Connector
set_policy_packets_maxlen value k = do
  n ← load_u16 value 0
  ok (record k { policy_packets_maxlen = n })

-- `set_packets_per_min` and `set_packets_avg`
abbrev pub set_packets_per_min : Bytes → Connector → Exec Connector
set_packets_per_min value k = do n ← load_u16 value 0; ok (record k { packets_per_min = n })

abbrev pub set_packets_avg : Bytes → Connector → Exec Connector
set_packets_avg value k = do n ← load_u16 value 0; ok (record k { packets_avg = n })

-- The body of the loop of `atlas_data_plane_parse_policy`.
policy_body : Cmd → Connector → Exec (Connector × Bool)
policy_body cmd k =
    if cmd.type == Types.data_plane_policy_qos
    then (set_policy_qos cmd.value k >>= λ k'. ok (k', false))
    else if cmd.type == Types.data_plane_policy_packets_per_minute
    then (set_policy_packets_per_min cmd.value k >>= λ k'. ok (k', false))
    else if cmd.type == Types.data_plane_policy_packets_maxlen
    then (set_policy_packets_maxlen cmd.value k >>= λ k'. ok (k', false))
    else ok (k, false)

-- The end of `atlas_data_plane_parse_policy`: the policy is active, and sent.
abbrev pub activate : Client → Connector → Exec Client
activate c k = send_policy_command (record c { connector = record k { active_policy = true } })

policy_read : Client → CmdBatch × Status → Exec Client
unfolding policy_body
policy_read c (b, Status.ok) = for_each_cmd policy_body b c.connector >>= activate c
policy_read c (b, status) = ok c

-- `atlas_data_plane_parse_policy`; `buf` points into a command, so it is not NULL
unfoldable pub parse_policy : (buf : Bytes) → (buf_len : ℕ) → Client → Exec Client
unfolding policy_read
parse_policy buf buf_len c =
    if buf_len == 0 then ok c else set_raw new (some buf) buf_len >>= policy_read c

-- `write (connected_socket, ...)`; without a socket it fails, which is only logged
abbrev pub write_to : Option ℕ → Bytes → Client → Client
write_to none buf c = c
write_to (some fd) buf c = record c { os = record (c.os) { written = (fd, buf) ∷ c.os.written } }

-- The body of the loop of `atlas_reputation_resp_parse`.
reputation_body : Cmd → Client → Exec (Client × Bool)
reputation_body cmd c =
    if cmd.type == Types.data_plane_feature_reputation
    then (do
      b ← add (some new) Types.data_plane_feature_reputation cmd.length cmd.value
      buf ← sent_bytes b
      ok (write_to c.connector.connected_socket buf c, false))
    else ok (c, false)

reputation_read : Client → CmdBatch × Status → Exec (Status × Client)
unfolding reputation_body
reputation_read c (b, Status.ok) = do c' ← for_each_cmd reputation_body b c; ok (Status.ok, c')
reputation_read c (b, status) = ok (Status.corrupted_command, c)

-- `atlas_reputation_resp_parse`
unfoldable pub reputation_resp_parse :
    (buf : Option Bytes) → (buf_len : ℕ) → Client → Exec (Status × Client)
unfolding reputation_read
reputation_resp_parse none buf_len c = ok (Status.invalid_input, c)
reputation_resp_parse (some buf) buf_len c =
    if buf_len == 0
    then ok (Status.invalid_input, c)
    else set_raw new (some buf) buf_len >>= reputation_read c

-- The length of a payload that `atlas_reputation_resp_parse` is told, a uint16_t.
abbrev pub payload_len : Option Bytes → ℕ
payload_len none = 0
payload_len (some buf) = u16 (length buf)

-- `feature_reputation_callback`
unfoldable pub feature_reputation_callback :
    CoapResponse → (payload : Option Bytes) → Client → Exec Client
unfolding reputation_resp_parse
feature_reputation_callback CoapResponse.ok payload c = do
  (status, c') ← reputation_resp_parse payload (payload_len payload) c
  ok c'
feature_reputation_callback resp payload c = do
  buf ← send_batch (frame Types.data_plane_feature_error [] ∷ []) (some new)
  ok (write_to c.connector.connected_socket buf c)

-- What `atlas_feature_reputation_handle` and `atlas_feature_feedback_handle` send: the identity of
-- the client, and a command with the bytes of the data plane.
identified : (type : ℕ) → (value : Bytes) → (length : ℕ) → Client → Exec Bytes
identified type value len c = do
  b ← add (some new) Types.identity (length c.settings.identity) c.settings.identity
  b ← add b type len value
  sent_bytes b

-- `atlas_feature_reputation_handle`
unfoldable pub feature_reputation_handle : (feature : Bytes) → (length : ℕ) → Client → Exec Client
unfolding identified
feature_reputation_handle feature len c = if len == 0 then ok c else (do
  buf ← identified Types.data_plane_feature_reputation feature len c
  uri ← coap_get_uri c.settings (codes "gateway/reputation/feature")
  ok ((coap_request uri CoapMethod.put buf policy_timeout_ms CoapCallback.feature_reputation c).1))

-- `atlas_feature_feedback_handle`
unfoldable pub feature_feedback_handle : (feedback : Bytes) → (length : ℕ) → Client → Exec Client
unfolding identified
feature_feedback_handle feedback len c = if len == 0 then ok c else (do
  buf ← identified Types.data_plane_feedback feedback len c
  uri ← coap_get_uri c.settings (codes "gateway/reputation/feedback")
  ok ((coap_request uri CoapMethod.put buf policy_timeout_ms CoapCallback.feedback c).1))

-- `atlas_data_plane_identity`
unfoldable pub data_plane_identity : Client → Exec Client
data_plane_identity c = do
  buf ← send_batch (frame Types.data_plane_identity c.settings.identity ∷ []) (some new)
  ok (write_to c.connector.connected_socket buf c)

-- A statistic that is stored, with the rest of the client.
abbrev pub keep_connector : Client → Exec Connector → Exec Client
keep_connector c m = m >>= λ k. ok (record c { connector = k })

-- The commands of a message of the data plane, and the body of the loop of
-- `atlas_data_plane_read_cb`.
unfoldable pub data_plane_cmd : Cmd → Client → Exec Client
data_plane_cmd cmd c =
    if cmd.type == Types.data_plane_policy
    then parse_policy cmd.value cmd.length c
    else if cmd.type == Types.data_plane_packets_per_minute
    then keep_connector c (set_packets_per_min cmd.value c.connector)
    else if cmd.type == Types.data_plane_packets_avg
    then keep_connector c (set_packets_avg cmd.value c.connector)
    else if cmd.type == Types.data_plane_feature_reputation
    then feature_reputation_handle cmd.value cmd.length c
    else if cmd.type == Types.data_plane_feedback
    then feature_feedback_handle cmd.value cmd.length c
    else if cmd.type == Types.data_plane_get_identity
    then data_plane_identity c
    else ok c

unfoldable pub data_plane_body : Cmd → Client → Exec (Client × Bool)
data_plane_body cmd c = data_plane_cmd cmd c >>= λ c'. ok (c', false)

data_plane_read : Client → CmdBatch × Status → Exec Client
data_plane_read c (b, Status.ok) = for_each_cmd data_plane_body b c
data_plane_read c (b, status) = ok c

-- `atlas_data_plane_read_cb`: the bytes that `read` gave, none or [] where it failed or ended. The
-- buffer is taken to be as long as what was read.
unfoldable pub read_cb : (fd : ℕ) → (received : Option Bytes) → Client → Exec Client
unfolding data_plane_read
read_cb fd none c = ok (record c { sched_entry = del_entry fd c.sched_entry })
read_cb fd (some []) c = ok (record c { sched_entry = del_entry fd c.sched_entry })
read_cb fd (some (b ∷ bs)) c = set_raw new (some (b ∷ bs)) (length (b ∷ bs)) >>= data_plane_read c

-- The connection that `atlas_data_plane_accept_cb` closes.
abbrev pub close_old : Option ℕ → Client → Client
close_old none c = c
close_old (some fd) c = record c {
  sched_entry = del_entry fd c.sched_entry;
  os = record (c.os) { closed = fd ∷ c.os.closed };
}

-- `atlas_data_plane_accept_cb`; `accepted` is what `accept` answers
unfoldable pub accept_cb : (accepted : Option ℕ) → Client → Client
accept_cb accepted c =
    let c' = close_old c.connector.connected_socket c in
    record c' {
      connector = record (c'.connector) { connected_socket = accepted };
      sched_entry = add_entry accepted (some SchedCallback.data_plane_read) c'.sched_entry;
    }
