-- ===== src/Register.antt =====
-- atlas_client/src/register/atlas_register.c: the registration at the gateway and its keep-alive.
-- `push_all` is `atlas_telemetry_push_all`.
pub mod Again
pub mod KeepAlive
pub mod Requests
use resfit.Prelude.{
  ℕ, ◌+◌, ◌%◌, Bool, true, false, Option, none, some, List, [], ◌∷◌, length, ltb, ◌==◌,
  if◌then◌else◌, Exec, ok, ◌>>=◌,
}
use resfit.Prelude.Memory.{Bytes, u16, host_bytes, load_u16}
use resfit.Prelude.Text.{codes}
use resfit.Status.{Status, CoapResponse, CoapMethod}
use resfit.Command.{new}
use resfit.Command.Types
use resfit.Command.Frame.{Frame, frame}
use resfit.Command.Sender.{send_batch}
use resfit.State.{AlarmCallback, CoapCallback, Registration, Client}
use resfit.Config.{coap_get_uri, get_local_ip_port, ip_port_text}
use resfit.Alarm.{alarm_set, alarm_cancel}
use resfit.CoapClient.{coap_request}
use resfit.Connector.{send_policy_command}

abbrev pub register_timeout_ms : ℕ
register_timeout_ms = 5000

abbrev pub keepalive_timeout_ms : ℕ
keepalive_timeout_ms = 20000

abbrev pub keepalive_count : ℕ
keepalive_count = 3

-- `send_register_command`
unfoldable pub send_register_command : Client → Exec Client
send_register_command c = do
  buf ←
      send_batch
        (frame Types.register c.settings.identity
          ∷ frame Types.ip_port (ip_port_text (get_local_ip_port c.settings))
          ∷ [])
        (some new)
  uri ← coap_get_uri c.settings (codes "gateway/register")
  ok ((coap_request uri CoapMethod.post buf register_timeout_ms CoapCallback.registered c).1)

-- `ka_token++`
abbrev pub next_ka_token : Client → Client
next_ka_token c = record c {
  registration = record (c.registration) { ka_token = u16 (c.registration.ka_token + 1) };
}

keepalive_with : Client → Exec Client
keepalive_with c = do
  buf ←
      send_batch
        (frame Types.identity c.settings.identity
          ∷ frame Types.keepalive (host_bytes c.registration.ka_token)
          ∷ frame Types.ip_port (ip_port_text (get_local_ip_port c.settings))
          ∷ [])
        (some new)
  uri ← coap_get_uri c.settings (codes "gateway/keepalive")
  ok ((coap_request uri CoapMethod.put buf register_timeout_ms CoapCallback.keepalive c).1)

-- `send_keepalive_command`
unfoldable pub send_keepalive_command : Client → Exec Client
unfolding keepalive_with
send_keepalive_command c = keepalive_with (next_ka_token c)

-- `keepalive_alarm_callback` and `reg_alarm_callback`
abbrev pub keepalive_alarm_callback : Client → Exec Client
keepalive_alarm_callback c = send_keepalive_command c

abbrev pub reg_alarm_callback : Client → Exec Client
reg_alarm_callback c = send_register_command c

abbrev pub set_ka_count : ℕ → Client → Client
set_ka_count n c = record c { registration = record (c.registration) { ka_count = n } }

-- The end of `keepalive_callback` where the count is 0.
unfoldable pub register_again : Client → Exec Client
register_again c =
    let d =
      alarm_cancel c.registration.ka_alarm_id
        (record c { registration = record (c.registration) { registered = false } }) in
    send_register_command
      (record d { registration = record (d.registration) { ka_alarm_id = none } })

-- The label ERR of `keepalive_callback`; the count is a uint8_t.
unfoldable pub keepalive_err : Client → Exec Client
unfolding register_again
keepalive_err c =
    let d = set_ka_count ((c.registration.ka_count + 255) % 256) c in
    if d.registration.ka_count == 0 then register_again d else ok d

-- `keepalive_callback` with a payload
keepalive_payload : Bytes → Client → Exec Client
unfolding keepalive_err
keepalive_payload payload c =
    if ltb (length payload) 2
    then keepalive_err c
    else (load_u16 payload 0 >>= λ token.
        if c.registration.ka_token == token
        then ok (set_ka_count keepalive_count c)
        else keepalive_err c)

-- `keepalive_callback`
unfoldable pub keepalive_callback : CoapResponse → (payload : Option Bytes) → Client → Exec Client
unfolding keepalive_payload
keepalive_callback CoapResponse.ok none c = keepalive_err c
keepalive_callback CoapResponse.ok (some payload) c = keepalive_payload payload c
keepalive_callback CoapResponse.not_found payload c = keepalive_err (set_ka_count 1 c)
keepalive_callback CoapResponse.not_acceptable_here payload c = keepalive_err (set_ka_count 1 c)
keepalive_callback resp payload c = keepalive_err c

-- The end of `reg_callback`: the keep-alive timer.
abbrev pub keep_ka_alarm : Option ℕ × Client → Client
keep_ka_alarm (id, c) = record c { registration = record (c.registration) { ka_alarm_id = id } }

abbrev pub start_keepalive : Client → Client
start_keepalive c = keep_ka_alarm (alarm_set keepalive_timeout_ms AlarmCallback.keepalive false c)

module _ (push_all : Client → Exec Client) where
  -- `reg_callback`
  unfoldable pub reg_callback : CoapResponse → Client → Exec Client
  reg_callback CoapResponse.ok c = do
    d ← (if c.registration.registered then ok c else send_policy_command c)
    e ← push_all (record d { registration = record (d.registration) { registered = true } })
    ok (start_keepalive e)
  reg_callback resp c = ok ((alarm_set register_timeout_ms AlarmCallback.register true c).1)

-- `atlas_is_registered` and `atlas_register_start`
abbrev pub is_registered : Client → Bool
is_registered c = c.registration.registered

abbrev pub register_start : Client → Exec Client
register_start c = send_register_command c
