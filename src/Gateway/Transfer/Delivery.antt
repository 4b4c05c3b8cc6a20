-- ===== src/Gateway/Transfer/Delivery.antt =====
-- What the readers of AtlasFilter.cpp and AtlasPubSubAgent.cpp promise about a stream.
use resfit.Prelude.{
  ℕ, ◌≤◌, ◌<◌, ◌≡◌, refl, sym, ap, ◌∙◌, List, [], ◌∷◌, ◌++◌, map, append-nil, arith, length, take,
  drop, length-append, length-drop, ok, ub, ◌>>=◌, none, take_past, false, ◌==◌,
}
use resfit.Prelude.Memory.{Bytes, ntohs, write_at_outside}
use resfit.Command.Frame.{Frame, IsFrame, AllFrames, encode, frame_bytes}
use resfit.Gateway.Transfer.{
  header, payload, AtlasCommandXfer, after_header, handle_arrived_data, handle_read, read_stream,
  handed_on, available, smaller,
}
use resfit.Gateway.Transfer.Framing.{
  IsFresh, Waiting, fresh-Waiting, length_read, piece_read, handle_read_parts, xfer,
  checked_available,
}
use resfit.Gateway.Transfer.Streams.{AllFit, AllPositive, handed, Missing-bounds, rest_of}

-- The commands handed on are the first of the stream and nothing of the others is lost.
abbrev pub Delivered : AtlasCommandXfer → List Frame → (ready : List ℕ) → Type 0
Delivered x fs ready =
    (gs : List Frame) × (hs : List Frame) × (x' : AtlasCommandXfer) × (rest : Bytes) × (fs
      ≡ gs ++ hs)
    × (read_stream x ready (encode fs) ≡ ok (x', map frame_bytes gs, rest))
    × Waiting x' hs rest

-- A reader that has just been reset reads a stream of commands whose types and lengths fit 16 bits
-- and which fit its buffer, with reads of any sizes. Then it has handed on the commands at the
-- start of the stream, each whole and once and in order; of the next command the buffer holds the
-- bytes that were read, and the others are still to be read. No read leaves the buffer.
pub read_stream-Delivered :
    (x : AtlasCommandXfer) (fs : List Frame) (ready : List ℕ)
    → IsFresh x
    → AllFrames fs
    → AllFit fs
    → Delivered x fs ready
read_stream-Delivered x fs ready fresh all fit =
    let (gs, hs, x', rest, split, run, wait, less) =
      handed ready fs x (encode fs) all fit (fresh-Waiting x fs fresh) in
    (gs, hs, x', rest, split, run, wait)

-- Without unread bytes no frame is waited for.
nothing_left :
    (x : AtlasCommandXfer) (hs : List Frame) (rest : Bytes)
    → length rest ≤ 0
    → Waiting x hs rest
    → (hs ≡ []) × IsFresh x × (rest ≡ [])
nothing_left x [] rest le wait = (refl, wait.0, wait.1)
nothing_left x (f ∷ hs) rest le wait = absurd (
    omega (
      arith,
      Missing-bounds x.state x.cmd_len x.cmd_remaining_len (length f.value) wait.0.missing,
      ap length wait.1,
      length-append (drop x.cmd_len (frame_bytes f)) (encode hs),
      length-drop x.cmd_len (frame_bytes f),
    ))

-- If moreover each read finds a byte at least, and there are as many reads as bytes, then all
-- commands are handed on, the stream is read to its end, and the reader is as after a reset.
pub read_stream-all :
    (x : AtlasCommandXfer) (fs : List Frame) (ready : List ℕ)
    → IsFresh x
    → AllFrames fs
    → AllFit fs
    → AllPositive ready
    → length (encode fs) ≤ length ready
    → (x' : AtlasCommandXfer) × IsFresh x'
      × (read_stream x ready (encode fs) ≡ ok (x', map frame_bytes fs, []))
read_stream-all x fs ready fresh all fit positive enough =
    let (gs, hs, x', rest, split, run, wait, less) =
      handed ready fs x (encode fs) all fit (fresh-Waiting x fs fresh) in
    let (none_left, fresh', none_unread) =
      nothing_left x' hs rest (omega (arith, less positive)) wait in
    let every : gs ≡ fs = sym (append-nil gs) ∙ ap (λ l. gs ++ l) (sym none_left) ∙ sym split in
    (x', fresh', run ∙ (λ i. ok (x', map frame_bytes (every i), none_unread i)))

header_step :
    (start : Bytes) (f : Frame)
    → length start ≡ 8192
    → IsFrame f
    → 0 < length f.value
    → (buf : Bytes) × (length buf ≡ 8192)
      × (handle_read (xfer start header 0 4) (take 4 (frame_bytes f))
          ≡ ok (xfer buf payload 4 (length f.value), none))
unfolding after_header
header_step start f block0 all pos =
    let (buf, block, same, e) =
      piece_read start header 0 4 4 (frame_bytes f) block0 (omega arith) (omega arith) (omega arith)
        refl in
    let (len, read, size) = length_read buf f all same in
    (
      buf,
      block,
      e
          ∙ ap (λ m. (m >>= λ len. ok (xfer buf payload 4 (ntohs len))) >>= checked_available) read
          ∙ ap (λ n. checked_available (xfer buf payload 4 n)) size
          ∙ ap (λ b. available b (xfer buf payload 4 (length f.value)))
              (let z : (length f.value == 0) ≡ false = ground arith in z),
    )

outside :
    (buf : Bytes) (k n : ℕ) (s : Bytes)
    → length buf ≡ 8192
    → 8188 < k
    → k ≤ n
    → length s ≡ k
    → read_stream (xfer buf payload 4 k) (n ∷ []) s ≡ ub
unfolding read_stream
outside buf k n s block long ready size =
    let asked : smaller n k ≡ k = ground arith in
    let chunk : take (smaller n k) s ≡ s = ap (λ j. take j s) asked ∙ take_past k s (omega arith) in
    ap (λ c. rest_of (handle_read (xfer buf payload 4 k) c) [] (drop (length c) s)) chunk
    ∙ ap (λ m. rest_of m [] (drop (length s) s))
        (handle_read_parts buf payload 4 k s
          ∙ ap
              (λ m. m >>= λ buf.
                handle_arrived_data (xfer buf payload 4 k) (length s) >>= checked_available)
              (write_at_outside buf 4 s (omega arith)))

-- A command of more than 8188 bytes is written past the end of the buffer, if its bytes are ready
-- when they are asked for.
pub read_stream-overflow :
    (x : AtlasCommandXfer) (f : Frame) (n : ℕ)
    → IsFresh x
    → IsFrame f
    → 8188 < length f.value
    → length f.value ≤ n
    → read_stream x (4 ∷ n ∷ []) (encode (f ∷ [])) ≡ ub
unfolding read_stream
read_stream-overflow x f n fresh all long ready =
    let (buf, block, e) = header_step x.buf f fresh.1 all (omega arith) in
    ap (λ y. read_stream y (4 ∷ n ∷ []) (encode (f ∷ []))) fresh.0
    ∙ ap (λ m. rest_of m (n ∷ []) (f.value ++ [])) e
    ∙ ap (λ m. m >>= handed_on none)
        (outside buf (length f.value) n (f.value ++ []) block long ready
          (omega (arith, length-append f.value [])))
