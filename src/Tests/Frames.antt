-- ===== src/Tests/Frames.antt =====
-- Batches of commands, the alerts and the commands to execute, at concrete bytes.
use resfit.Prelude.{ℕ, suc, ◌≡◌, ◌⊎◌, arith, Bool, false, some, List, [], ◌∷◌, Exec, ok}
use resfit.Prelude.Memory.{Bytes}
use resfit.Status.{Status}
use resfit.Command.{Cmd, new, add, for_each_cmd}
use resfit.Command.Types
use resfit.Command.Frame.{Frame, frame, batch_of}
use resfit.Command.Build.{add-batch_of}
use resfit.Command.Walk.{views, run_body, for_each_cmd-views}
use resfit.Command.Accept.{set_raw-cases, Accepted, Refused}
use resfit.Tests.{qos_frame, rate_frame}

-- A buffer whose last command claims a byte more than there is.
abbrev cut_short : Bytes
cut_short = 4 ∷ 76 ∷ 0 ∷ 3 ∷ 5 ∷ 0 ∷ []

set_raw-cases_example : Accepted new cut_short ⊎ Refused new cut_short
set_raw-cases_example =
    set_raw-cases new cut_short
      (omega arith, (omega arith, (omega arith, (omega arith, (omega arith, (omega arith, tt))))))
      (λ p. cc)

abbrev count_body : Cmd → ℕ → Exec (ℕ × Bool)
count_body cmd n = ok (suc n, false)

for_each_cmd-views_example :
    for_each_cmd count_body (batch_of (qos_frame ∷ rate_frame ∷ [])) 0
    ≡ run_body count_body (views (qos_frame ∷ rate_frame ∷ [])) 0
for_each_cmd-views_example = for_each_cmd-views count_body qos_frame (rate_frame ∷ []) 0 (
  record { type_fits = omega arith; value_fits = omega arith },
  (record { type_fits = omega arith; value_fits = omega arith }, tt),
)

add-batch_of_example :
    add (some (batch_of (qos_frame ∷ []))) 1101 2 (44 ∷ 1 ∷ [])
    ≡ ok (some (batch_of (qos_frame ∷ rate_frame ∷ [])))
add-batch_of_example =
    add-batch_of (qos_frame ∷ []) rate_frame
      (record { type_fits = omega arith; value_fits = omega arith }) (omega arith)

-- Two commands: restart and shutdown.
abbrev restart_shutdown : List Frame
restart_shutdown = frame Types.device_restart [] ∷ frame Types.device_shutdown [] ∷ []

abbrev restart_bytes : Bytes
restart_bytes = 0 ∷ 0 ∷ 0 ∷ 0 ∷ []

abbrev push_bytes : Bytes
push_bytes = 2 ∷ 1 ∷ 0 ∷ 2 ∷ 0 ∷ 60 ∷ []

-- A scan rate of ten seconds, and no threshold.
abbrev scan_bytes : Bytes
scan_bytes = 2 ∷ 2 ∷ 0 ∷ 2 ∷ 0 ∷ 10 ∷ []
