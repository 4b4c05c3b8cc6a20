-- ===== src/Gateway/DeviceCommands/Faults.antt =====
-- Where the lists of a device's commands go wrong: a single command, and a failing database.
use resfit.Prelude.{
  ℕ, ◌≡◌, refl, ap, ◌∙◌, Bool, true, false, not, ◌||◌, List, some, [], ◌∷◌, ◌++◌, arith, cond_true,
  if◌then◌else◌, ◌==◌, ok, ub, ◌>>=◌, length, ◌<◌,
}
use resfit.Command.Frame.{frame, IsFrame, encode}
use resfit.Gateway.State.{AtlasCoapResponse}
use resfit.Gateway.DeviceCommands.{
  AtlasCommandDevice, CommandQueue, push_command, push_front, device_cmd_resp_callback,
  add_recv_device_command, handle_command_done_ack, ack_front, response_command_done,
  mark_command_as_done, mark_front, unless_empty, type_device, command_device, device_payload,
  send_request,
}
use resfit.Gateway.Batch.{atlas_command, serialized_commands}
use resfit.Gateway.Batch.Writing.{serialized_commands-encode, u16_id, serialized_commands-bare}
use resfit.Prelude.Memory.{Bytes, u16}

-- The front of an empty list is read when the cloud acknowledges the only executed command.
pub handle_command_done_ack-last :
    (q : CommandQueue) (c : AtlasCommandDevice)
    → q.exec_cmds ≡ c ∷ []
    → handle_command_done_ack c.sequence_number true q ≡ ub
unfolding handle_command_done_ack
handle_command_done_ack-last q c e =
    let same : not (c.sequence_number == c.sequence_number) ≡ false = ground arith in
    ap (ack_front c.sequence_number true q) e
    ∙ ap
        (λ b.
          if b || not true then ok q else response_command_done (record q { exec_cmds = [] }) [])
        same

-- If the database does not take it that the first command, which was sent, is executed, the command
-- stays marked: the answer changes nothing but the count of timeouts, and from then on no push sends
-- anything, whether or not the device is registered and whatever commands arrive behind the first.
pub device_cmd_resp_callback-unmarked :
    (q : CommandQueue) (c : AtlasCommandDevice) (cs : List AtlasCommandDevice) (sends : Bool)
    → q.recv_cmds ≡ c ∷ cs
    → c.in_progress ≡ true
    → let r = record q { device_cmd_timeouts = 0 } in
      (device_cmd_resp_callback AtlasCoapResponse.ok false sends q ≡ ok r)
      × ((again on : Bool) (ds : List AtlasCommandDevice)
          → let later = record r { registered = on; recv_cmds = c ∷ cs ++ ds } in
            push_command again later ≡ ok later)
unfolding device_cmd_resp_callback push_command mark_command_as_done
device_cmd_resp_callback-unmarked q c cs sends e sent =
    let r : CommandQueue = record q { device_cmd_timeouts = 0 } in
    (
      ap (λ l. unless_empty l q (mark_front false r l >>= λ q'. push_front sends q' q'.recv_cmds)) e
          ∙ ap (push_front sends r) e
          ∙ cond_true {b = not q.registered || c.in_progress} _ _ (ground (arith, sent)),
      λ again on ds. cond_true {b = not on || c.in_progress} _ _ (ground (arith, sent)),
    )

type_device_fits : (t : Bytes) → type_device t < 65536
type_device_fits t = ground arith

device_command-encode :
    (c : AtlasCommandDevice) (payload : Bytes)
    → c.command_payload ≡ payload
    → IsFrame (frame c.command_type_device payload)
    → serialized_commands
        (atlas_command c.command_type_device (u16 (length payload)) (device_payload payload) ∷ [])
      ≡ ok (some (encode (frame c.command_type_device payload ∷ [])))
unfolding serialized_commands
device_command-encode c [] e fits = serialized_commands-bare c.command_type_device fits.type_fits
device_command-encode c (b ∷ bs) e fits =
    ap (λ n. serialized_commands (atlas_command c.command_type_device n (some (b ∷ bs)) ∷ []))
      (u16_id (length (b ∷ bs)) fits.value_fits)
    ∙ serialized_commands-encode (frame c.command_type_device (b ∷ bs)) [] (fits, tt)

-- The life of a single command. A registered device without commands gets one with a payload of at
-- most 65535 bytes. It is sent, the device answers that it is executed, the database takes that, and
-- the cloud is told: then the acknowledgement of the cloud runs into undefined behaviour.
pub only_command_lem :
    (q : CommandQueue) (id : Bytes) (n : ℕ) (t payload : Bytes)
    → length payload < 65536
    → let c = command_device id n t payload in
      let q₀ = record q { registered = true; recv_cmds = []; exec_cmds = [] } in
      (q₁ : CommandQueue) × (q₂ : CommandQueue) × (push_command true (add_recv_device_command c q₀)
        ≡ ok q₁)
      × (q₁.sent ≡ q.sent ++ some (encode (frame (type_device t) payload ∷ [])) ∷ [])
      × (device_cmd_resp_callback AtlasCoapResponse.ok true true q₁ ≡ ok q₂)
      × (q₂.done ≡ q.done ++ n ∷ [])
      × (handle_command_done_ack n true q₂ ≡ ub)
unfolding push_command device_cmd_resp_callback mark_command_as_done
only_command_lem q id n t payload short =
    let c : AtlasCommandDevice = command_device id n t payload in
    let q₀ : CommandQueue = record q { registered = true; recv_cmds = c ∷ []; exec_cmds = [] } in
    let bytes : Bytes = encode (frame (type_device t) payload ∷ []) in
    let q₁ : CommandQueue = send_request true q₀ c [] (some bytes) in
    let sent : AtlasCommandDevice = record c { in_progress = true } in
    let q₂ : CommandQueue = record q₁ {
      recv_cmds = [];
      exec_cmds = sent ∷ [];
      device_cmd_timeouts = 0;
      done = q.done ++ n ∷ [];
    } in
    (
      q₁,
      q₂,
      ap (λ m. m >>= λ bytes. ok (send_request true q₀ c [] bytes))
          (device_command-encode c payload refl
            (record { type_fits = type_device_fits t; value_fits = short })),
      refl,
      refl,
      refl,
      handle_command_done_ack-last q₂ sent refl,
    )
