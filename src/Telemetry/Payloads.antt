-- ===== src/Telemetry/Payloads.antt =====
-- atlas_client/src/telemetry: the payload callbacks of the features (atlas_telemetry_sysinfo.c,
-- atlas_telemetry_packets_info.c, atlas_telemetry_hostname.c and atlas_telemetry_kern_info.c), and
-- the threshold alert of the number of processes.
pub mod Values
use resfit.Prelude.{
  ℕ, ◌-◌, Bool, true, false, ◌&&◌, Option, none, some, List, [], ◌∷◌, ◌++◌, length, take, ltb, ◌==◌,
  if◌then◌else◌, Exec, ok, ub, ◌>>=◌,
}
use resfit.Prelude.Memory.{Bytes, u16}
use resfit.Prelude.Text.{codes, print_u}
use resfit.Status.{Status, CoapResponse}
use resfit.Command.{new}
use resfit.Command.Types
use resfit.Command.Frame.{Frame, frame}
use resfit.Command.Sender.{send_batch}
use resfit.State.{Payload, Sysinfo, Uname, Client}
use resfit.Telemetry.{threshold_set}
use resfit.Telemetry.Alerts.{threshold_cmd_parse}

-- The commands of every payload: the identity, and the value as a text.
abbrev pub payload_frames : (type : ℕ) → (text : Bytes) → Client → List Frame
payload_frames type text c = frame Types.identity c.settings.identity ∷ (frame type text ∷ [])

pub text_payload : (type : ℕ) → (text : Bytes) → Client → Exec (Option Bytes)
text_payload type text c = do
  buf ← send_batch (payload_frames type text c) (some new)
  ok (some buf)

-- A payload of one field of `sysinfo`, which knows no threshold.
sysinfo_payload : (type : ℕ) → (Sysinfo → ℕ) → (use_threshold : Bool) → Client → Exec (Option Bytes)
unfolding text_payload
sysinfo_payload type field true c = ok none
sysinfo_payload type field false c = elim c.os.sysinfo [
  | none ↦ ok none
  | some info ↦ text_payload type (print_u (field info)) c
]

-- `atlas_telemetry_payload_procs`
procs_payload : (use_threshold : Bool) → Client → Exec (Option Bytes)
unfolding text_payload
procs_payload use_threshold c = elim c.os.sysinfo [
  | none ↦ ok none
  | some info ↦
      if use_threshold && ltb info.procs c.procs_threshold
      then ok none
      else text_payload Types.telemetry_sysinfo_procs (print_u info.procs) c
]

-- A string ends at its first 0.
pub c_string : Bytes → Bytes
c_string [] = []
c_string (b ∷ bs) = let rest = c_string bs in if b == 0 then [] else b ∷ rest

-- What stands in front of the last newline, if there is one.
pub before_newline : Bytes → Option Bytes
before_newline [] = none
before_newline (b ∷ bs) = elim (before_newline bs) [
  | none ↦ if b == 10 then some [] else none
  | some front ↦ some (b ∷ front)
]

abbrev pub or_whole : Option Bytes → Bytes → Bytes
or_whole none s = s
or_whole (some front) s = front

-- `atlas_telemetry_payload_hostname`
hostname_payload : (use_threshold : Bool) → Client → Exec (Option Bytes)
unfolding text_payload c_string before_newline
hostname_payload true c = ok none
hostname_payload false c = elim c.os.hostname [
  | none ↦ ok none
  | some text ↦
      if length text == 0
      then ok none
      else (let s = c_string (take 32 text) in
          text_payload Types.telemetry_hostname (or_whole (before_newline s) s) c)
]

-- `strncat` into a string of 128 bytes at most
pub cat : Bytes → Bytes → Bytes
cat s t = s ++ take (128 - length s) t

-- `atlas_telemetry_payload_kern_info`
kern_info_payload : (use_threshold : Bool) → Client → Exec (Option Bytes)
unfolding text_payload cat
kern_info_payload true c = ok none
kern_info_payload false c = elim c.os.uname [
  | none ↦ ok none
  | some u ↦
      text_payload Types.telemetry_kern_info
        (cat
          (cat
            (cat
              (cat
                (cat (cat (cat (cat (take 128 u.sysname) (codes " ")) u.nodename) (codes " "))
                  u.release)
                (codes " "))
              u.version)
            (codes " "))
          u.machine)
        c
]

-- The payload callbacks.
unfoldable pub payload : Payload → (use_threshold : Bool) → Client → Exec (Option Bytes)
unfolding sysinfo_payload procs_payload hostname_payload kern_info_payload text_payload
payload Payload.hostname t c = hostname_payload t c
payload Payload.kern_info t c = kern_info_payload t c
payload Payload.uptime t c = sysinfo_payload Types.telemetry_sysinfo_uptime (λ i. i.uptime) t c
payload Payload.totalram t c =
    sysinfo_payload Types.telemetry_sysinfo_totalram (λ i. i.totalram) t c
payload Payload.freeram t c = sysinfo_payload Types.telemetry_sysinfo_freeram (λ i. i.freeram) t c
payload Payload.sharedram t c =
    sysinfo_payload Types.telemetry_sysinfo_sharedram (λ i. i.sharedram) t c
payload Payload.bufferram t c =
    sysinfo_payload Types.telemetry_sysinfo_bufferram (λ i. i.bufferram) t c
payload Payload.totalswap t c =
    sysinfo_payload Types.telemetry_sysinfo_totalswap (λ i. i.totalswap) t c
payload Payload.freeswap t c =
    sysinfo_payload Types.telemetry_sysinfo_freeswap (λ i. i.freeswap) t c
payload Payload.procs t c = procs_payload t c
payload Payload.load1 t c = sysinfo_payload Types.telemetry_sysinfo_load1 (λ i. i.load1) t c
payload Payload.load5 t c = sysinfo_payload Types.telemetry_sysinfo_load5 (λ i. i.load5) t c
payload Payload.load15 t c = sysinfo_payload Types.telemetry_sysinfo_load15 (λ i. i.load15) t c
payload Payload.packets_per_minute t c =
    text_payload Types.telemetry_packets_per_minute (print_u c.connector.packets_per_min) c
payload Payload.packets_avg t c =
    text_payload Types.telemetry_packets_avg (print_u c.connector.packets_avg) c

-- The end of `atlas_threshold_alert_procs_cb`; `strtol` gives the low 16 bits of what it returns, and
-- whether it sets `errno`.
module _ (strtol : Bytes → ℕ × Bool) where
  threshold_checked : ℕ → ℕ × Bool → Client → CoapResponse × Client
  threshold_checked scan_rate (value, errno) c =
      let d = record c { procs_threshold = value } in
      if errno && value == 0 then (CoapResponse.not_acceptable_here, d) else (
        CoapResponse.ok,
        threshold_set (some (codes "gateway/telemetry/sysinfo/procs")) scan_rate d,
      )

  threshold_parsed : Client → Status × Option ℕ × Option Bytes → Exec (CoapResponse × Client)
  unfolding threshold_checked
  threshold_parsed c (Status.ok, some scan_rate, some text) =
      ok (threshold_checked scan_rate (strtol text) c)
  threshold_parsed c (Status.ok, some scan_rate, none) = ub
  threshold_parsed c (Status.ok, none, text) = ub
  threshold_parsed c (status, scan_rate, text) = ok (CoapResponse.not_acceptable_here, c)

  -- `atlas_threshold_alert_procs_cb`: a NULL text that `strtol` gets is undefined
  unfoldable pub threshold_alert_procs_cb :
      (req_payload : Option Bytes) → (req_payload_len : ℕ) → Client → Exec (CoapResponse × Client)
  unfolding threshold_parsed
  threshold_alert_procs_cb req_payload len c =
      threshold_cmd_parse req_payload (u16 len) >>= threshold_parsed c
