-- ===== src/Gateway/Batch/Agreement.antt =====
-- The batches of the client, in C, and those of the gateway, in C++, are one format.
use resfit.Prelude.{◌<◌, ◌≡◌, some, List, ◌∷◌, map, length, ok}
use resfit.Prelude.Memory.{Bytes}
use resfit.Status.{Status}
use resfit.Command.{CmdBatch, new, set_raw}
use resfit.Command.Frame.{Frame, AllFrames, encode, batch_of}
use resfit.Command.Sender.{send_batch, send_batch-encode}
use resfit.Command.Accept.{set_raw-encode}
use resfit.Gateway.Batch.{serialized_commands, received_commands}
use resfit.Gateway.Batch.Writing.{command_of, serialized_commands-encode}
use resfit.Gateway.Batch.Parsing.{received_commands-encode}

-- A list of commands, one at least, whose types and lengths and whose bytes in all fit 16 bits:
-- the client, which grows its buffer command by command, and the gateway, which sizes its buffer
-- first, write the same bytes for it; and each of them reads from these bytes the commands that
-- were written.
pub send_batch-serialized_commands :
    (b : CmdBatch) (f : Frame) (fs : List Frame)
    → AllFrames (f ∷ fs)
    → length (encode (f ∷ fs)) < 65536
    → (bytes : Bytes) × (send_batch (f ∷ fs) (some new) ≡ ok bytes)
      × (serialized_commands (map command_of (f ∷ fs)) ≡ ok (some bytes))
      × (set_raw b (some bytes) (length bytes) ≡ ok (batch_of (f ∷ fs), Status.ok))
      × (received_commands (some bytes) (length bytes) ≡ ok (map command_of (f ∷ fs)))
send_batch-serialized_commands b f fs all small = (
  encode (f ∷ fs),
  send_batch-encode (f ∷ fs) all small,
  serialized_commands-encode f fs all,
  set_raw-encode b f fs all,
  received_commands-encode f fs all,
)
