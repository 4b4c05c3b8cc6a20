-- ===== src/DataPlane/Statistics.antt =====
-- The statistics of the packets, from the packets to the connector of the client.
use resfit.Prelude.{
  ℕ, suc, ◌+◌, ◌*◌, ◌/◌, ◌%◌, ◌<◌, ◌≡◌, ap, ◌∙◌, some, List, [], ◌∷◌, ◌++◌, arith, length, lt→ltb,
  Exec, ok, ◌>>=◌,
}
use resfit.Prelude.Memory.{Bytes, load_u16_first}
use resfit.Command.Types
use resfit.Command.Frame.{Frame, frame, IsFrame, encode}
use resfit.Command.Sender.{send_batch-encode}
use resfit.State.{Client}
use resfit.Connector.{data_plane_cmd, keep_connector, read_cb}
use resfit.Connector.Messages.{carry_out, read_cb-carry_out}
use resfit.DataPlane.{
  PacketStatistics, no_packets, pkt_received, int_bytes, statistics_frames, statistics_command,
}

-- Packets that are received one after the other.
unfoldable pub pkts_received : List ℕ → PacketStatistics → Exec PacketStatistics
pkts_received [] s = ok s
pkts_received (n ∷ ns) s = pkt_received n s >>= pkts_received ns

unfoldable pub sum : List ℕ → ℕ
sum [] = 0
sum (n ∷ ns) = n + sum ns

abbrev statistics : ℕ → ℕ → PacketStatistics
statistics samples total = record {
  payload_samples = samples;
  payload_total = total;
  payload_avg = total / samples;
}

pkt_received_fits :
    (n : ℕ) (s : PacketStatistics)
    → s.payload_samples + 1 < 2147483648
    → s.payload_total + n < 2147483648
    → pkt_received n s ≡ ok (statistics (s.payload_samples + 1) (s.payload_total + n))
unfolding pkt_received
pkt_received_fits n s few small =
    rw
      (lt→ltb (s.payload_samples + 1) 2147483648 few, lt→ltb (s.payload_total + n) 2147483648 small)

pkts_received_from :
    (n : ℕ) (ns : List ℕ) (s : PacketStatistics)
    → s.payload_samples + 1 + length ns < 2147483648
    → s.payload_total + (n + sum ns) < 2147483648
    → pkts_received (n ∷ ns) s
      ≡ ok (statistics (s.payload_samples + 1 + length ns) (s.payload_total + (n + sum ns)))
unfolding pkts_received sum
pkts_received_from n [] s few small =
    ap (λ m. m >>= ok) (pkt_received_fits n s (omega arith) (omega arith))
    ∙ ap (λ t. ok (statistics (s.payload_samples + 1) t))
        (let e : s.payload_total + n ≡ s.payload_total + (n + 0) = omega arith in e)
    ∙ ap (λ k. ok (statistics k (s.payload_total + (n + 0))))
        (let e : s.payload_samples + 1 ≡ s.payload_samples + 1 + 0 = omega arith in e)
pkts_received_from n (m ∷ ns) s few small =
    let next : PacketStatistics = statistics (s.payload_samples + 1) (s.payload_total + n) in
    let count : s.payload_samples + 1 + 1 + length ns ≡ s.payload_samples + 1 + suc (length ns) =
      omega arith in
    let all : s.payload_total + n + (m + sum ns) ≡ s.payload_total + (n + (m + sum ns)) =
      omega arith in
    ap (λ r. r >>= pkts_received (m ∷ ns)) (pkt_received_fits n s (omega arith) (omega arith))
    ∙ pkts_received_from m ns next (omega arith) (omega arith)
    ∙ ap (λ k. ok (statistics k (s.payload_total + n + (m + sum ns)))) count
    ∙ ap (λ t. ok (statistics (s.payload_samples + 1 + suc (length ns)) t)) all

-- After a reset, receiving packets, at least one, fewer than 2 ^ 31 and of fewer than 2 ^ 31 bytes
-- in all, counts them, adds up their lengths, and gives the average length, rounded down.
pub pkts_received_lem :
    (n : ℕ) (ns : List ℕ)
    → length (n ∷ ns) < 2147483648
    → sum (n ∷ ns) < 2147483648
    → pkts_received (n ∷ ns) no_packets
      ≡ ok (record {
        payload_samples = length (n ∷ ns);
        payload_total = sum (n ∷ ns);
        payload_avg = sum (n ∷ ns) / length (n ∷ ns);
      })
unfolding sum
pkts_received_lem n ns few small =
    let count : 0 + 1 + length ns ≡ suc (length ns) = omega arith in
    let all : 0 + (n + sum ns) ≡ n + sum ns = omega arith in
    pkts_received_from n ns no_packets (omega arith) (omega arith)
    ∙ ap (λ k. ok (statistics k (0 + (n + sum ns)))) count
    ∙ ap (λ t. ok (statistics (suc (length ns)) t)) all

per_minute_cmd :
    (n l : ℕ) (q : Bytes) (c : Client)
    → data_plane_cmd
        (record {
          type = Types.data_plane_packets_per_minute;
          length = l;
          value = int_bytes n ++ q;
        })
        c
      ≡ ok (record c { connector = record (c.connector) { packets_per_min = n % 65536 } })
unfolding data_plane_cmd
per_minute_cmd n l q c =
    let low : n % 256 + n / 256 % 256 * 256 ≡ n % 65536 = omega arith in
    ap (λ m. keep_connector c (m >>= λ x. ok (record (c.connector) { packets_per_min = x })))
      (load_u16_first (n % 256) (n / 256 % 256) _)
    ∙ ap (λ x. ok (record c { connector = record (c.connector) { packets_per_min = x } })) low

avg_cmd :
    (n l : ℕ) (q : Bytes) (c : Client)
    → data_plane_cmd
        (record { type = Types.data_plane_packets_avg; length = l; value = int_bytes n ++ q })
        c
      ≡ ok (record c { connector = record (c.connector) { packets_avg = n % 65536 } })
unfolding data_plane_cmd
avg_cmd n l q c =
    let low : n % 256 + n / 256 % 256 * 256 ≡ n % 65536 = omega arith in
    ap (λ m. keep_connector c (m >>= λ x. ok (record (c.connector) { packets_avg = x })))
      (load_u16_first (n % 256) (n / 256 % 256) _)
    ∙ ap (λ x. ok (record c { connector = record (c.connector) { packets_avg = x } })) low

-- The message of the statistics, read by the client, stores the number of packets and their average
-- length modulo 65536, since the client reads the first two of the four bytes of each; the sender
-- starts again from zero.
pub statistics_command-read_cb :
    (fd : ℕ) (s : PacketStatistics) (c : Client)
    → (buf : Bytes) × (statistics_command s ≡ ok (buf, no_packets))
      × (read_cb fd (some buf) c
          ≡ ok (record c {
            connector = record (c.connector) {
              packets_per_min = s.payload_samples % 65536;
              packets_avg = s.payload_avg % 65536;
            };
          }))
unfolding statistics_command carry_out
statistics_command-read_cb fd s c = (
  encode (statistics_frames s),
  ap (λ m. m >>= λ b. ok (b, no_packets))
      (send_batch-encode (statistics_frames s) (first_fits, (second_fits, tt)) (omega arith)),
  read_cb-carry_out fd (frame Types.data_plane_packets_per_minute (int_bytes s.payload_samples))
        (second ∷ []) c (first_fits, (second_fits, tt))
      ∙ ap (λ m. m >>= carry_out (second ∷ []))
          (per_minute_cmd s.payload_samples 4 (encode (second ∷ [])) c)
      ∙ ap (λ m. m >>= carry_out [])
          (avg_cmd s.payload_avg 4 [] (record c {
            connector = record (c.connector) { packets_per_min = s.payload_samples % 65536 };
          })),
)
  where
    second : Frame
    second = frame Types.data_plane_packets_avg (int_bytes s.payload_avg)

    first_fits : IsFrame (frame Types.data_plane_packets_per_minute (int_bytes s.payload_samples))
    first_fits = record { type_fits = omega arith; value_fits = omega arith }

    second_fits : IsFrame (frame Types.data_plane_packets_avg (int_bytes s.payload_avg))
    second_fits = record { type_fits = omega arith; value_fits = omega arith }
