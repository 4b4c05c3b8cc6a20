-- ===== src/Tests/Firewall.antt =====
-- The firewall, its socket and the batches of the gateway at concrete inputs.
use resfit.Prelude.{
  ℕ, ◌+◌, ◌≤◌, ◌≡◌, refl, some, List, [], ◌∷◌, map, arith, length, replicate, length-replicate, ok,
  ub,
}
use resfit.Prelude.Memory.{Bytes}
use resfit.Prelude.Text.{codes, str_eq}
use resfit.Status.{Status}
use resfit.Command.{new, set_raw}
use resfit.Command.Frame.{Frame, frame, AllFrames, encode, frame_bytes, batch_of}
use resfit.Command.Sender.{send_batch}
use resfit.Gateway.Batch.{received_commands, serialized_commands}
use resfit.Gateway.Batch.Writing.{command_of}
use resfit.Gateway.Batch.Parsing.{Parsed, received_commands-Parsed}
use resfit.Gateway.Batch.Agreement.{send_batch-serialized_commands}
use resfit.Gateway.Transfer.{header, AtlasCommandXfer, read_stream}
use resfit.Gateway.Transfer.Framing.{IsFresh}
use resfit.Gateway.Transfer.Delivery.{
  Delivered, read_stream-Delivered, read_stream-all, read_stream-overflow,
}
use resfit.Gateway.Maps.{find}
use resfit.Gateway.Filter.{AtlasPacket, AtlasPacketPolicer, AtlasFilter, packet_policer, filter}
use resfit.Gateway.Filter.Limits.{
  Verdict, filter_lem, filter_all, sent_to, passed_to, passed_to_bound,
}

abbrev hello : Frame
hello = frame 1005 (codes "sensor")

abbrev bye : Frame
bye = frame 1000 []

hello_fits : AllFrames (hello ∷ bye ∷ [])
hello_fits = omega arith

-- A command, and the start of a second one.
received_commands-Parsed_example :
    Parsed
      (0 ∷ 1 ∷ 0 ∷ 2 ∷ 7 ∷ 8 ∷ 0 ∷ 2 ∷ [])
      (received_commands (some (0 ∷ 1 ∷ 0 ∷ 2 ∷ 7 ∷ 8 ∷ 0 ∷ 2 ∷ [])) 8)
received_commands-Parsed_example =
    received_commands-Parsed (0 ∷ 1 ∷ 0 ∷ 2 ∷ 7 ∷ 8 ∷ 0 ∷ 2 ∷ []) (omega arith)

send_batch-serialized_commands_example :
    (bytes : Bytes) × (send_batch (hello ∷ bye ∷ []) (some new) ≡ ok bytes)
    × (serialized_commands (map command_of (hello ∷ bye ∷ [])) ≡ ok (some bytes))
    × (set_raw new (some bytes) (length bytes) ≡ ok (batch_of (hello ∷ bye ∷ []), Status.ok))
    × (received_commands (some bytes) (length bytes) ≡ ok (map command_of (hello ∷ bye ∷ [])))
send_batch-serialized_commands_example =
    send_batch-serialized_commands new hello (bye ∷ []) hello_fits (omega arith)

-- A reader behind `init`.
unfoldable block : Bytes
block = replicate 8192 0

block_size : length block ≡ 8192
unfolding block
block_size = length-replicate {A = ℕ} 8192 0

abbrev reader : AtlasCommandXfer
reader = record { buf = block; state = header; cmd_len = 0; cmd_remaining_len = 4 }

-- The two commands, cut after three and after six bytes.
read_stream-Delivered_example : Delivered reader (hello ∷ bye ∷ []) (3 ∷ 3 ∷ [])
read_stream-Delivered_example =
    read_stream-Delivered reader (hello ∷ bye ∷ []) (3 ∷ 3 ∷ []) (refl, block_size) hello_fits
      (omega arith)

read_stream-all_example :
    (x' : AtlasCommandXfer) × IsFresh x'
    × (read_stream reader (replicate 14 5) (encode (hello ∷ bye ∷ []))
        ≡ ok (x', map frame_bytes (hello ∷ bye ∷ []), []))
read_stream-all_example =
    read_stream-all reader (hello ∷ bye ∷ []) (replicate 14 5) (refl, block_size) hello_fits
      (omega arith) (omega arith) (omega arith)

-- A command of 9000 bytes.
unfoldable long : Bytes
long = replicate 9000 1

long_size : length long ≡ 9000
unfolding long
long_size = length-replicate {A = ℕ} 9000 1

read_stream-overflow_example :
    read_stream reader (4 ∷ 9000 ∷ []) (encode (frame 1001 long ∷ [])) ≡ ub
read_stream-overflow_example =
    read_stream-overflow reader (frame 1001 long) 9000 (refl, block_size)
      (record { type_fits = omega arith; value_fits = omega (arith, long_size) })
      (omega (arith, long_size)) (omega (arith, long_size))

-- A filter with a rule of two packets a minute for one client.
abbrev rule : AtlasPacketPolicer
rule = packet_policer 1 2 100

abbrev wall : AtlasFilter
wall = record { rules = (codes "sensor", rule) ∷ []; tx_pkt_stats = []; to_gateway = [] }

abbrev packet_to : Bytes → ℕ → AtlasPacket
packet_to dst qos = record {
  src_client_id = some (codes "lamp");
  dst_client_id = dst;
  qos = qos;
  payload_len = 10;
}

filter_lem_example :
    Verdict
      (find (codes "sensor") wall.rules)
      (packet_to (codes "sensor") 1)
      (filter wall (packet_to (codes "sensor") 1)).1
filter_lem_example =
    filter_lem wall (packet_to (codes "sensor") 1) (unfold find str_eq in omega arith)

-- Five packets, one of them to another client.
abbrev packets : List AtlasPacket
packets =
    packet_to (codes "sensor") 1
    ∷ packet_to (codes "sensor") 2
    ∷ packet_to (codes "lamp") 1
    ∷ packet_to (codes "sensor") 1
    ∷ packet_to (codes "sensor") 0
    ∷ []

passed_to_bound_example :
    (passed_to (codes "sensor") wall packets ≤ 2)
    × ((p' : AtlasPacketPolicer) × (find (codes "sensor") (filter_all wall packets).rules ≡ some p')
        × (p'.window_ppm ≡ 0 + sent_to (codes "sensor") packets)
        × (p'.ppm ≡ 2))
passed_to_bound_example =
    passed_to_bound (codes "sensor") wall packets rule (unfold find str_eq in refl) (omega arith)
