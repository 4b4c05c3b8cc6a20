-- ===== src/Execute.antt =====
-- atlas_client/src/commands_execute: the restart and shutdown commands of the gateway. A command
-- sets a timer, whose callback runs the engine (not modelled: it calls the system).
pub mod Batches
use resfit.Prelude.{
  ℕ, Bool, true, false, Option, none, some, ◌==◌, if◌then◌else◌, Exec, ok, ub, ◌>>=◌,
}
use resfit.Prelude.Memory.{Bytes}
use resfit.Status.{Status, CoapResponse}
use resfit.Command.{CmdBatch, Cmd, new, set_raw, for_each_cmd}
use resfit.Command.Types
use resfit.State.{AlarmCallback, Client}
use resfit.Alarm.{alarm_set}

abbrev pub timeout_ms : ℕ
timeout_ms = 10

-- What becomes of the flag with the id that `atlas_alarm_set` returned.
abbrev pub mark_progress : Option ℕ × Client → Client
mark_progress (none, c) = c
mark_progress (some id, c) = record c { cmd_in_progress = true }

-- A branch of the switch that schedules an alarm.
unfoldable pub schedule : AlarmCallback → Client → Client
schedule cb c = mark_progress (alarm_set timeout_ms cb true c)

-- The body of the loop of `atlas_alert_command_execution_parse`.
unfoldable pub execute_body : Cmd → Client → Exec (Client × Bool)
execute_body cmd c =
    if cmd.type == Types.device_restart
    then ok (schedule AlarmCallback.restart c, false)
    else if cmd.type == Types.device_shutdown
    then ok (schedule AlarmCallback.shutdown c, false)
    else ok (c, false)

unfoldable pub execute_read : Client → CmdBatch × Status → Exec (Status × Client)
unfolding execute_body
execute_read c (b, Status.ok) = do c' ← for_each_cmd execute_body b c; ok (Status.ok, c')
execute_read c (b, status) = ok (Status.corrupted_command_execution_payload, c)

-- `atlas_alert_command_execution_parse` behind its first guard
unfoldable pub execute_buffer : Option Bytes → ℕ → Client → Exec (Status × Client)
unfolding execute_read
execute_buffer none buf_len c = ok (Status.invalid_input, c)
execute_buffer (some buf) buf_len c =
    if buf_len == 0
    then ok (Status.invalid_input, c)
    else set_raw new (some buf) buf_len >>= execute_read c

-- `atlas_alert_command_execution_parse`
unfoldable pub execution_parse :
    (buf : Option Bytes) → (buf_len : ℕ) → Client → Exec (Status × Client)
unfolding execute_buffer
execution_parse buf buf_len c =
    if c.cmd_in_progress
    then ok (Status.deferred_command_execution, c)
    else execute_buffer buf buf_len c

-- The response of `atlas_execute_command_cb` to a status.
abbrev pub execute_response : Status → CoapResponse
execute_response Status.ok = CoapResponse.ok
execute_response Status.deferred_command_execution = CoapResponse.unknown
execute_response status = CoapResponse.not_acceptable_here

abbrev pub respond : Status × Client → Exec (CoapResponse × Client)
respond (status, c) = ok (execute_response status, c)

-- `atlas_execute_command_cb`
unfoldable pub execute_command_cb :
    (buf : Option Bytes) → (buf_len : ℕ) → Client → Exec (CoapResponse × Client)
unfolding execution_parse
execute_command_cb buf buf_len c = execution_parse buf buf_len c >>= respond
