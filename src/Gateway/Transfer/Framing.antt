-- ===== src/Gateway/Transfer/Framing.antt =====
-- However the bytes of commands are cut into pieces, each command is handed on once, whole and in
-- order, and no read leaves the buffer.
use resfit.Prelude.{
  ℕ, zero, suc, ◌+◌, ◌-◌, ◌*◌, ◌/◌, ◌%◌, ◌≤◌, ◌<◌, ◌≡◌, ◌⊎◌, inl, inr, refl, sym, ap, ◌∙◌, false,
  Option, none, some, List, [], ◌∷◌, ◌++◌, append_assoc, arith, length, take, drop, ◌==◌,
  if◌then◌else◌, length-append, length-drop, length-take_le, take-append-drop, take-append,
  take_past, take-split, Exec, ok, ◌>>=◌, subst,
}
use resfit.Prelude.Memory.{
  Bytes, ntohs, read_at, write_at, read_at-append, write_at_over, load_u16, load_u16_at_two,
}
use resfit.Command.Frame.{Frame, IsFrame, encode, frame_bytes}
use resfit.Gateway.Transfer.{
  XferState, header, payload, AtlasCommandXfer, init, after_header, handle_arrived_data, available,
  is_cmd_available, handle_read,
}

abbrev pub xfer : Bytes → XferState → (cmd_len cmd_remaining_len : ℕ) → AtlasCommandXfer
xfer buf state cmd_len cmd_remaining_len = record {
  buf = buf;
  state = state;
  cmd_len = cmd_len;
  cmd_remaining_len = cmd_remaining_len;
}

-- A state has so many bytes of a command of so many behind its header, and misses others.
abbrev pub Missing : XferState → (cmd_len cmd_remaining_len size : ℕ) → Type 0
Missing header k r size = (k + r ≡ 4) × (0 < r)
Missing payload k r size = (4 ≤ k) × (k + r ≡ 4 + size) × (0 < r)

-- The bytes of a frame are read so far, and not to its end.
pub record IsReading (x : AtlasCommandXfer) (f : Frame) : Type 0 where
  pub block : length x.buf ≡ 8192
  pub bytes : take x.cmd_len x.buf ≡ take x.cmd_len (frame_bytes f)
  pub missing : Missing x.state x.cmd_len x.cmd_remaining_len (length f.value)

-- The state behind `init`.
abbrev pub IsFresh : AtlasCommandXfer → Type 0
IsFresh x = (x ≡ init x) × (length x.buf ≡ 8192)

stored :
    (buf b : Bytes) (k n : ℕ)
    → length buf ≡ 8192
    → k + n ≤ 8192
    → k + n ≤ length b
    → take k buf ≡ take k b
    → (buf' : Bytes) × (write_at buf k (take n (drop k b)) ≡ ok buf')
      × (length buf' ≡ 8192)
      × (take (k + n) buf' ≡ take (k + n) b)
stored buf b k n block fits le same =
    let chunk : Bytes = take n (drop k b) in
    let post : Bytes = drop n (drop k buf) in
    let size : length chunk ≡ n = length-take_le n (drop k b) (omega (arith, length-drop k b)) in
    let front : length (take k buf) ≡ k = length-take_le k buf (omega arith) in
    let whole : take (k + n) b ≡ take k buf ++ chunk =
      take-split k (k + n) b (omega arith)
      ∙ ap (λ j. take k b ++ take j (drop k b)) (let e : k + n - k ≡ n = omega arith in e)
      ∙ ap (λ l. l ++ chunk) (sym same) in
    let joined : length (take k buf ++ chunk) ≡ k + n =
      length-append (take k buf) chunk
      ∙ (let e : length (take k buf) + length chunk ≡ k + n = omega arith in e) in
    (
      take k buf ++ (chunk ++ post),
      write_at_over (take k buf) (take n (drop k buf)) post chunk
          (sym (take-append-drop k buf)
            ∙ ap (λ l. take k buf ++ l) (sym (take-append-drop n (drop k buf))))
          (sym front)
          (size ∙ sym (length-take_le n (drop k buf) (omega (arith, length-drop k buf)))),
      omega (
        arith,
        length-append (take k buf) (chunk ++ post),
        length-append chunk post,
        length-drop n (drop k buf),
        length-drop k buf,
      ),
      ap (take (k + n)) (sym (append_assoc (take k buf) chunk post))
          ∙ ap (λ j. take j ((take k buf ++ chunk) ++ post)) (sym joined)
          ∙ take-append (take k buf ++ chunk) post
          ∙ sym whole,
    )

-- The counters do not wrap.
arrived_counts :
    (buf : Bytes) (s : XferState) (k r n : ℕ)
    → n ≤ r
    → k + r < 70000
    → handle_arrived_data (xfer buf s k r) n ≡ after_header s (xfer buf s (k + n) (r - n))
unfolding handle_arrived_data
arrived_counts buf s k r n le small =
    let read : (k + n) % 18446744073709551616 ≡ k + n = omega arith in
    let left : (r + 18446744073709551616 - n) % 18446744073709551616 ≡ r - n = omega arith in
    ap (λ m. after_header s (xfer buf s m ((r + 18446744073709551616 - n) % 18446744073709551616)))
      read
    ∙ ap (λ m. after_header s (xfer buf s (k + n) m)) left

front_read :
    (buf b : Bytes) (k : ℕ)
    → k ≤ length buf
    → k ≡ length b
    → take k buf ≡ take k b
    → read_at buf 0 k ≡ ok b
front_read buf b k le all same =
    let size : length (take k buf) ≡ k = length-take_le k buf le in
    ap (λ l. read_at l 0 k) (sym (take-append-drop k buf))
    ∙ ap (read_at (take k buf ++ drop k buf) 0) (sym size)
    ∙ read_at-append [] (take k buf) (drop k buf)
    ∙ ap ok (same ∙ take_past k b (omega arith))

-- The length behind the type.
pub length_read :
    (buf : Bytes) (f : Frame)
    → IsFrame f
    → take 4 buf ≡ take 4 (frame_bytes f)
    → (len : ℕ) × (load_u16 buf 2 ≡ ok len) × (ntohs len ≡ length f.value)
length_read buf f all same =
    let n : ℕ = length f.value in
    (
      n / 256 % 256 + n % 256 * 256,
      ap (λ l. load_u16 l 2) (sym (take-append-drop 4 buf) ∙ ap (λ l. l ++ drop 4 buf) same)
          ∙ load_u16_at_two _ _ _ _ (drop 4 buf),
      omega (arith, all.value_fits),
    )

-- After a piece the frame is still being read, or it is handed on.
abbrev pub Reads : AtlasCommandXfer → Frame → ℕ → Exec (AtlasCommandXfer × Option Bytes) → Type 0
Reads x f n m =
    ((x' : AtlasCommandXfer) × (m ≡ ok (x', none)) × IsReading x' f × (x'.cmd_len ≡ x.cmd_len + n))
    ⊎ ((x' : AtlasCommandXfer) × (m ≡ ok (x', some (frame_bytes f)))
        × IsFresh x'
        × (x.cmd_len + n ≡ length (frame_bytes f)))

abbrev pub checked_available : AtlasCommandXfer → Exec (AtlasCommandXfer × Option Bytes)
checked_available x = available (is_cmd_available x) x

-- The end of a payload, and a payload that is not at its end.
payload_read :
    (x : AtlasCommandXfer) (buf : Bytes) (f : Frame) (k r n : ℕ)
    → k ≡ x.cmd_len + n
    → length buf ≡ 8192
    → length f.value ≤ 8188
    → take k buf ≡ take k (frame_bytes f)
    → 4 ≤ k
    → k + r ≡ 4 + length f.value
    → Reads x f n (checked_available (xfer buf payload k r))
payload_read x buf f k zero n at block small same four sum = inr (
  xfer buf header 0 4,
  ap (λ m. m >>= λ cmd. ok (xfer buf header 0 4, some cmd))
      (front_read buf (frame_bytes f) k (omega arith) (omega arith) same),
  (refl, block),
  omega arith,
)
payload_read x buf f k (suc r) n at block small same four sum = inl (
  xfer buf payload k (suc r),
  ap (λ b. available b (xfer buf payload k (suc r)))
      (let e : (suc r == 0) ≡ false = ground arith in e),
  record { block = block; bytes = same; missing = (four, sum, omega arith) },
  at,
)

header_read :
    (x : AtlasCommandXfer) (buf : Bytes) (f : Frame) (k r n : ℕ)
    → IsFrame f
    → k ≡ x.cmd_len + n
    → length buf ≡ 8192
    → length f.value ≤ 8188
    → take k buf ≡ take k (frame_bytes f)
    → k + r ≡ 4
    → Reads x f n (after_header header (xfer buf header k r) >>= checked_available)
unfolding after_header
header_read x buf f k zero n all at block small same sum =
    let four : k ≡ 4 = omega arith in
    let (len, e, size) =
      length_read buf f all
        (ap (λ j. take j buf) (sym four) ∙ same ∙ ap (λ j. take j (frame_bytes f)) four) in
    rw (e, size)
      (payload_read x buf f k (length f.value) n at block small same (omega arith) (omega arith))
header_read x buf f k (suc r) n all at block small same sum = inl (
  xfer buf header k (suc r),
  ap
      (λ b.
        (if b
          then (do len ← load_u16 buf 2; ok (xfer buf payload k (ntohs len)))
          else ok (xfer buf header k (suc r)))
        >>= checked_available)
      (let e : (suc r == 0) ≡ false = ground arith in e),
  record { block = block; bytes = same; missing = (sum, omega arith) },
  at,
)

pub handle_read_parts :
    (buf : Bytes) (s : XferState) (k r : ℕ) (arrived : Bytes)
    → handle_read (xfer buf s k r) arrived ≡ (
        write_at buf k arrived >>= λ buf.
        handle_arrived_data (xfer buf s k r) (length arrived) >>= checked_available)
unfolding handle_read
handle_read_parts buf s k r arrived = refl

-- A piece is written, and counted.
pub piece_read :
    (buf : Bytes) (s : XferState) (k r n : ℕ) (b : Bytes)
    → length buf ≡ 8192
    → k + r < 8193
    → n ≤ r
    → k + n ≤ length b
    → take k buf ≡ take k b
    → (buf' : Bytes) × (length buf' ≡ 8192)
      × (take (k + n) buf' ≡ take (k + n) b)
      × (handle_read (xfer buf s k r) (take n (drop k b))
          ≡ (after_header s (xfer buf' s (k + n) (r - n)) >>= checked_available))
piece_read buf s k r n b block fits le short same =
    let (buf', e, block', same') = stored buf b k n block (omega arith) short same in
    let size : length (take n (drop k b)) ≡ n =
      length-take_le n (drop k b) (omega (arith, length-drop k b)) in
    (
      buf',
      block',
      same',
      handle_read_parts buf s k r (take n (drop k b))
          ∙ ap
              (λ m. m >>= λ buf.
                handle_arrived_data (xfer buf s k r) (length (take n (drop k b)))
                >>= checked_available)
              e
          ∙ ap (λ j. handle_arrived_data (xfer buf' s k r) j >>= checked_available) size
          ∙ ap (λ m. m >>= checked_available) (arrived_counts buf' s k r n le (omega arith)),
    )

pub frame_read :
    (buf : Bytes) (s : XferState) (k r n : ℕ) (f : Frame)
    → IsFrame f
    → length f.value ≤ 8188
    → IsReading (xfer buf s k r) f
    → n ≤ r
    → Reads (xfer buf s k r) f n (handle_read (xfer buf s k r) (take n (drop k (frame_bytes f))))
frame_read buf header k r n f all small reading le =
    let (buf', block, same, e) =
      piece_read buf header k r n (frame_bytes f) reading.block (omega arith) le (omega arith)
        reading.bytes in
    subst (Reads (xfer buf header k r) f n) (sym e) (
      header_read (xfer buf header k r) buf' f (k + n) (r - n) n all refl block small same
        (omega arith))
frame_read buf payload k r n f all small reading le =
    let (buf', block, same, e) =
      piece_read buf payload k r n (frame_bytes f) reading.block (omega arith) le (omega arith)
        reading.bytes in
    subst (Reads (xfer buf payload k r) f n) (sym e) (
      unfold after_header in
      payload_read (xfer buf payload k r) buf' f (k + n) (r - n) n refl block small same
        (omega arith) (omega arith))

-- The reader is at the start of the first frame or inside it, or it has read them all.
abbrev pub Waiting : AtlasCommandXfer → List Frame → (stream : Bytes) → Type 0
Waiting x [] stream = IsFresh x × (stream ≡ [])
Waiting x (f ∷ fs) stream = IsReading x f × (stream ≡ drop x.cmd_len (frame_bytes f) ++ encode fs)

pub fresh-Waiting : (x : AtlasCommandXfer) (fs : List Frame) → IsFresh x → Waiting x fs (encode fs)
fresh-Waiting x [] fresh = (fresh, refl)
fresh-Waiting x (f ∷ fs) fresh =
    subst (λ x. Waiting x (f ∷ fs) (encode (f ∷ fs))) (sym fresh.0)
      (record { block = fresh.1; bytes = refl; missing = (refl, omega arith) }, refl)

-- No bytes leave a fresh reader fresh.
pub idle_read :
    (x : AtlasCommandXfer)
    → IsFresh x
    → (x' : AtlasCommandXfer) × (handle_read x [] ≡ ok (x', none)) × IsFresh x'
idle_read x fresh =
    let (buf', block, same, e) =
      piece_read x.buf header 0 4 0 [] fresh.1 (omega arith) (omega arith) (omega arith) refl in
    (
      xfer buf' header 0 4,
      ap (λ y. handle_read y []) fresh.0 ∙ e ∙ (unfold after_header in refl),
      (refl, block),
    )
