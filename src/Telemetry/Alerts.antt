-- ===== src/Telemetry/Alerts.antt =====
-- atlas_client/src/telemetry/atlas_alert_utils.c: reading the two kinds of alert requests.
pub mod Push
pub mod Threshold
use resfit.Prelude.{
  ℕ, suc, ◌+◌, Bool, true, false, ◌&&◌, Option, none, some, List, [], ◌∷◌, length, ◌==◌, ltb,
  if◌then◌else◌, Exec, ok, ub, ◌>>=◌,
}
use resfit.Prelude.Memory.{Bytes, ntohs, load_u16, read_at}
use resfit.Status.{Status}
use resfit.Command.{CmdBatch, Cmd, new, set_raw, for_each_cmd}
use resfit.Command.Types

-- `memcpy (&x, cmd->value, sizeof (uint16_t)); x = ntohs (x);`
abbrev pub read_rate : Cmd → Exec ℕ
read_rate cmd = do x ← load_u16 cmd.value 0; ok (ntohs x)

-- The loop of `atlas_alert_push_cmd_parse`: the first external push rate leaves it.
push_body : Cmd → Option ℕ → Exec (Option ℕ × Bool)
push_body cmd push_rate =
    if cmd.type == Types.telemetry_alert_ext_push_rate && cmd.length == 2
    then (do rate ← read_rate cmd; ok (some rate, true))
    else ok (push_rate, false)

-- What was found, and whether it was.
abbrev pub push_result : Option ℕ → Status × Option ℕ
push_result none = (Status.corrupted_command, none)
push_result (some rate) = (Status.ok, some rate)

push_read : CmdBatch × Status → Exec (Status × Option ℕ)
unfolding push_body
push_read (b, Status.ok) = do found ← for_each_cmd push_body b none; ok (push_result found)
push_read (b, status) = ok (Status.corrupted_command, none)

-- `atlas_alert_push_cmd_parse`: the status, and `*push_rate` where it is written. Its pointer to the
-- result is never NULL.
unfoldable pub push_cmd_parse : (buf : Option Bytes) → (buf_len : ℕ) → Exec (Status × Option ℕ)
unfolding push_read
push_cmd_parse none buf_len = ok (Status.invalid_input, none)
push_cmd_parse (some buf) buf_len =
    if buf_len == 0
    then ok (Status.invalid_input, none)
    else set_raw new (some buf) buf_len >>= push_read

-- The locals of `atlas_alert_threshold_cmd_parse`: the scan rate and the string, if they were found.
pub record Scan : Type 0 where
  pub scan_rate : Option ℕ
  pub threshold : Option Bytes

abbrev pub no_scan : Scan
no_scan = record { scan_rate = none; threshold = none }

-- The loop of `atlas_alert_threshold_cmd_parse`: the last of each kind counts.
threshold_body : Cmd → Scan → Exec (Scan × Bool)
threshold_body cmd s =
    if cmd.type == Types.telemetry_alert_int_scan_rate && cmd.length == 2
    then (do rate ← read_rate cmd; ok (record s { scan_rate = some rate }, false))
    else if cmd.type == Types.telemetry_alert_threshold && ltb 0 cmd.length
    then (do text ← read_at cmd.value 0 cmd.length; ok (record s { threshold = some text }, false))
    else ok (s, false)

-- The checks behind the loop. The second one asks whether the pointer `threshold` is NULL, which it
-- never is, and not whether a string was found.
abbrev pub threshold_result : Scan → Status × Option ℕ × Option Bytes
threshold_result s = elim s.scan_rate [
  | none ↦ (Status.corrupted_command, none, none)
  | some rate ↦ (Status.ok, some rate, s.threshold)
]

threshold_read : CmdBatch × Status → Exec (Status × Option ℕ × Option Bytes)
unfolding threshold_body
threshold_read (b, Status.ok) = do
  s ← for_each_cmd threshold_body b no_scan
  ok (threshold_result s)
threshold_read (b, status) = ok (Status.corrupted_command, none, none)

-- `atlas_alert_threshold_cmd_parse`: the status, `*scan_rate` where it is written, and `*threshold`.
unfoldable pub threshold_cmd_parse :
    (buf : Option Bytes) → (buf_len : ℕ) → Exec (Status × Option ℕ × Option Bytes)
unfolding threshold_read
threshold_cmd_parse none buf_len = ok (Status.invalid_input, none, none)
threshold_cmd_parse (some buf) buf_len =
    if buf_len == 0
    then ok (Status.invalid_input, none, none)
    else set_raw new (some buf) buf_len >>= threshold_read
