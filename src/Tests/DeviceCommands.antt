-- ===== src/Tests/DeviceCommands.antt =====
-- The commands of a device at a concrete run: a restart arrives and is sent.
use resfit.Prelude.{◌≡◌, refl, true, false, some, List, [], ◌∷◌, ◌++◌, arith, ok, ub, Bool}
use resfit.Prelude.Memory.{Bytes}
use resfit.Prelude.Text.{codes}
use resfit.Command.Frame.{frame, encode}
use resfit.Gateway.State.{AtlasCoapResponse}
use resfit.Gateway.DeviceCommands.{
  AtlasCommandDevice, CommandQueue, type_device, command_device, push_command,
  add_recv_device_command, device_cmd_resp_callback, handle_command_done_ack,
}
use resfit.Gateway.DeviceCommands.Runs.{
  Run, Reach, accepts, pushes, here, then_step, InOrder, no_commands, new_run, Reach-InOrder,
}
use resfit.Gateway.DeviceCommands.Faults.{device_cmd_resp_callback-unmarked, only_command_lem}
use resfit.Tests.Endpoints.{sensor}

abbrev restart_cloud : Bytes
restart_cloud = codes "ATLAS_CMD_CLIENT_DEVICE_RESTART"

abbrev restart : AtlasCommandDevice
restart = command_device sensor 7 restart_cloud []

abbrev pushed : CommandQueue
pushed = (only_command_lem (no_commands true) sensor 7 restart_cloud [] (omega arith)).0

abbrev pushed_run : Run
pushed_run = record { queue = pushed; acked = []; accepted = 7 ∷ [] }

pushed_reached : Reach (new_run true) pushed_run
pushed_reached = then_step _ _ (then_step _ _ here (accepts restart refl)) (
    pushes true pushed
      (only_command_lem (no_commands true) sensor 7 restart_cloud [] (omega arith)).2)

Reach-InOrder_example : InOrder pushed_run
Reach-InOrder_example = Reach-InOrder true pushed_run pushed_reached

only_command_lem_example :
    (q₁ : CommandQueue) × (q₂ : CommandQueue) × (push_command true
        (add_recv_device_command restart (no_commands true))
      ≡ ok q₁)
    × (q₁.sent ≡ some (encode (frame (type_device restart_cloud) [] ∷ [])) ∷ [])
    × (device_cmd_resp_callback AtlasCoapResponse.ok true true q₁ ≡ ok q₂)
    × (q₂.done ≡ 7 ∷ [])
    × (handle_command_done_ack 7 true q₂ ≡ ub)
only_command_lem_example =
    only_command_lem (no_commands true) sensor 7 restart_cloud [] (omega arith)

-- The restart is on its way.
abbrev on_its_way : CommandQueue
on_its_way = record (no_commands true) { recv_cmds = record restart { in_progress = true } ∷ [] }

device_cmd_resp_callback-unmarked_example :
    (device_cmd_resp_callback AtlasCoapResponse.ok false true on_its_way ≡ ok on_its_way)
    × ((again on : Bool) (ds : List AtlasCommandDevice)
        → let later = record on_its_way {
          registered = on;
          recv_cmds = record restart { in_progress = true } ∷ [] ++ ds;
        } in
          push_command again later ≡ ok later)
device_cmd_resp_callback-unmarked_example =
    device_cmd_resp_callback-unmarked on_its_way (record restart { in_progress = true }) [] true
      refl refl
