-- ===== src/Gateway/DeviceCommands.antt =====
-- The commands that the cloud has for a device: the lists of a device in
-- atlas_gateway/src/device/AtlasDevice.cpp, commands/AtlasCommandDevice.cpp, and what
-- claim_approve/AtlasApprove.cpp does with the lists.
pub mod Order
pub mod Runs
pub mod Faults
use resfit.Prelude.{
  ℕ, ◌+◌, ◌%◌, ◌≡◌, Bool, true, false, ◌||◌, not, Option, none, some, List, [], ◌∷◌, ◌++◌, length,
  ◌==◌, if◌then◌else◌, Exec, ok, ub, ◌>>=◌,
}
use resfit.Prelude.Memory.{Bytes, u16}
use resfit.Prelude.Text.{codes, str_eq}
use resfit.Gateway.Batch.{AtlasCommand, atlas_command, serialized_commands}
use resfit.Gateway.State.{AtlasCoapResponse}

-- `AtlasCommandDeviceType`
abbrev restart : ℕ
restart = 0

abbrev shutdown : ℕ
shutdown = 1

abbrev unknown : ℕ
unknown = 2

pub record AtlasCommandDevice : Type 0 where
  pub device_identity : Bytes
  pub sequence_number : ℕ
  pub command_type_cloud : Bytes
  pub command_type_device : ℕ
  pub command_payload : Bytes
  pub in_progress : Bool

abbrev pub type_device : (command_type : Bytes) → ℕ
type_device t =
    if str_eq t (codes "ATLAS_CMD_CLIENT_DEVICE_RESTART")
    then restart
    else if str_eq t (codes "ATLAS_CMD_CLIENT_DEVICE_SHUTDOWN")
    then shutdown
    else unknown

-- The constructor of a command.
abbrev pub command_device :
    (device_identity : Bytes)
    → (sequence_number : ℕ) → (command_type command_payload : Bytes) → AtlasCommandDevice
command_device id n t payload = record {
  device_identity = id;
  sequence_number = n;
  command_type_cloud = t;
  command_type_device = type_device t;
  command_payload = payload;
  in_progress = false;
}

abbrev pub device_payload : Bytes → Option Bytes
device_payload [] = none
device_payload (b ∷ bs) = some (b ∷ bs)

-- The command as it is put into a batch; its length has 16 bits.
abbrev pub device_command : AtlasCommandDevice → AtlasCommand
device_command c =
    atlas_command c.command_type_device (u16 (length c.command_payload))
      (device_payload c.command_payload)

-- The members of a device that its commands are kept in, the number of requests that libcoap has not
-- answered yet, the payloads of all requests, and the sequence numbers that the cloud was told to be
-- done.
pub record CommandQueue : Type 0 where
  pub registered : Bool
  pub recv_cmds : List AtlasCommandDevice
  pub exec_cmds : List AtlasCommandDevice
  pub device_cmd_timeouts : ℕ
  pub pending : ℕ
  pub sent : List (Option Bytes)
  pub done : List ℕ

-- `sendRequest` throws, or the request is on its way.
abbrev pub send_request :
    (sends : Bool)
    → CommandQueue
    → AtlasCommandDevice
    → List AtlasCommandDevice
    → Option Bytes
    → CommandQueue
send_request sends q c cs bytes =
    if sends
    then record q {
      recv_cmds = record c { in_progress = true } ∷ cs;
      pending = q.pending + 1;
      sent = q.sent ++ bytes ∷ [];
    }
    else q

abbrev pub push_front : (sends : Bool) → CommandQueue → List AtlasCommandDevice → Exec CommandQueue
push_front sends q [] = ok q
push_front sends q (c ∷ cs) =
    if not q.registered || c.in_progress
    then ok q
    else serialized_commands (device_command c ∷ []) >>= λ bytes.
        ok (send_request sends q c cs bytes)

-- `sends` tells whether `sendRequest` returns.
unfoldable pub push_command : (sends : Bool) → CommandQueue → Exec CommandQueue
push_command sends q = push_front sends q q.recv_cmds

-- `responseCommandDONE` reads the front of the list without a look at whether there is one.
abbrev pub response_command_done : CommandQueue → List AtlasCommandDevice → Exec CommandQueue
response_command_done q [] = ub
response_command_done q (c ∷ cs) = ok (record q { done = q.done ++ c.sequence_number ∷ [] })

-- `marked` is the answer of the database. The command is still in the list of received commands
-- when the cloud is told, which does not read that list.
abbrev pub mark_front : (marked : Bool) → CommandQueue → List AtlasCommandDevice → Exec CommandQueue
mark_front marked q [] = ok q
mark_front marked q (c ∷ cs) =
    let exec_cmds = q.exec_cmds ++ c ∷ [] in
    if marked
    then response_command_done (record q { exec_cmds = exec_cmds; recv_cmds = cs }) exec_cmds
    else ok q

unfoldable pub mark_command_as_done : (marked : Bool) → CommandQueue → Exec CommandQueue
mark_command_as_done marked q = mark_front marked q q.recv_cmds

abbrev pub idle_front : List AtlasCommandDevice → List AtlasCommandDevice
idle_front [] = []
idle_front (c ∷ cs) = record c { in_progress = false } ∷ cs

-- `ATLAS_PUSH_COMMAND_RETRY_NO`
abbrev push_command_retry_no : ℕ
push_command_retry_no = 3

abbrev pub answered : AtlasCoapResponse → (marked sends : Bool) → CommandQueue → Exec CommandQueue
answered AtlasCoapResponse.ok marked sends q =
    mark_command_as_done marked (record q { device_cmd_timeouts = 0 }) >>= push_command sends
answered AtlasCoapResponse.timeout marked sends q =
    let idle : CommandQueue = record q { recv_cmds = idle_front q.recv_cmds } in
    if q.device_cmd_timeouts == push_command_retry_no
    then ok (record idle { device_cmd_timeouts = 0 })
    else push_command sends
        (record idle { device_cmd_timeouts = (q.device_cmd_timeouts + 1) % 256 })
answered _ marked sends q =
    ok (record q { device_cmd_timeouts = 0; recv_cmds = idle_front q.recv_cmds })

abbrev pub unless_empty :
    List AtlasCommandDevice → CommandQueue → Exec CommandQueue → Exec CommandQueue
unless_empty [] q m = ok q
unless_empty (c ∷ cs) q m = m

unfoldable pub device_cmd_resp_callback :
    (resp_status : AtlasCoapResponse) → (marked sends : Bool) → CommandQueue → Exec CommandQueue
unfolding push_command mark_command_as_done
device_cmd_resp_callback resp_status marked sends q =
    unless_empty q.recv_cmds q (answered resp_status marked sends q)

-- `addRecvDeviceCommand`
abbrev pub add_recv_device_command : AtlasCommandDevice → CommandQueue → CommandQueue
add_recv_device_command c q = record q { recv_cmds = q.recv_cmds ++ c ∷ [] }

-- `handleCommandDoneAck` for the device that the cloud names; `deleted` is the answer of the
-- database.
abbrev pub ack_front :
    (number : ℕ) → (deleted : Bool) → CommandQueue → List AtlasCommandDevice → Exec CommandQueue
ack_front number deleted q [] = ok q
ack_front number deleted q (c ∷ cs) =
    if not (c.sequence_number == number) || not deleted
    then ok q
    else response_command_done (record q { exec_cmds = cs }) cs

unfoldable pub handle_command_done_ack :
    (number : ℕ) → (deleted : Bool) → CommandQueue → Exec CommandQueue
handle_command_done_ack number deleted q = ack_front number deleted q q.exec_cmds
