-- ===== src/Gateway/Transfer/Streams.antt =====
-- The commands of a stream, whatever the sizes of the reads.
use resfit.Prelude.{
  ℕ, ◌+◌, ◌-◌, ◌≤◌, ◌<◌, ◌≡◌, inl, inr, refl, sym, ap, ◌∙◌, subst, Option, none, some, List, [],
  ◌∷◌, ◌++◌, map, arith, length, take, drop, length-append, length-drop, length-take_le,
  take-append_le, drop-append_le, drop_past, drop-drop, take_past, Exec, ok, ◌>>=◌,
}
use resfit.Prelude.Memory.{Bytes}
use resfit.Command.Frame.{Frame, AllFrames, encode, frame_bytes}
use resfit.Gateway.Transfer.{
  XferState, header, payload, AtlasCommandXfer, handle_read, read_some, smaller, handed_on,
  read_stream,
}
use resfit.Gateway.Transfer.Framing.{
  Missing, IsFresh, Waiting, fresh-Waiting, frame_read, idle_read,
}

-- Each frame fits the buffer.
abbrev pub AllFit : List Frame → Type 0
AllFit [] = Unit {0}
AllFit (f ∷ fs) = (length f.value ≤ 8188) × AllFit fs

-- Each read finds a byte.
abbrev pub AllPositive : List ℕ → Type 0
AllPositive [] = Unit {0}
AllPositive (n ∷ ns) = (0 < n) × AllPositive ns

abbrev pub Outcome : Type 0
Outcome = Exec (AtlasCommandXfer × List Bytes × Bytes)

-- The frames at the start were handed on and the others are waited for; reads that find bytes take
-- them.
abbrev pub Handed : List Frame → (ready : List ℕ) → Bytes → Outcome → Type 0
Handed fs ready stream m =
    (gs : List Frame) × (hs : List Frame) × (x : AtlasCommandXfer) × (rest : Bytes) × (fs
      ≡ gs ++ hs)
    × (m ≡ ok (x, map frame_bytes gs, rest))
    × Waiting x hs rest
    × (AllPositive ready → length rest ≤ length stream - length ready)

pub Missing-bounds :
    (s : XferState) (k r size : ℕ) → Missing s k r size → (k + r ≤ 4 + size) × (0 < r)
Missing-bounds header k r size m = omega arith
Missing-bounds payload k r size m = omega arith

smaller_bounds : (a b : ℕ) → (smaller a b ≤ b) × (0 < a → 0 < b → 0 < smaller a b)
smaller_bounds a b = (ground arith, λ p q. ground arith)

abbrev pub rest_of :
    Exec (AtlasCommandXfer × Option Bytes) → (ready : List ℕ) → (stream : Bytes) → Outcome
rest_of m ready stream = m >>= λ p. read_stream p.0 ready stream >>= handed_on p.1

-- One read, by what it takes.
one_read :
    (x : AtlasCommandXfer) (n : ℕ) (ready : List ℕ) (front back : Bytes)
    → smaller n x.cmd_remaining_len ≤ length front
    → read_stream x (n ∷ ready) (front ++ back)
      ≡ rest_of
          (handle_read x (take (smaller n x.cmd_remaining_len) front))
          ready
          (drop (smaller n x.cmd_remaining_len) front ++ back)
unfolding read_stream
one_read x n ready front back le =
    let m : ℕ = smaller n x.cmd_remaining_len in
    let taken : take m (front ++ back) ≡ take m front = take-append_le m front back le in
    ap (λ c. rest_of (handle_read x c) ready (drop (length c) (front ++ back))) taken
    ∙ ap (λ k. rest_of (handle_read x (take m front)) ready (drop k (front ++ back)))
        (length-take_le m front le)
    ∙ ap (λ d. rest_of (handle_read x (take m front)) ready d) (drop-append_le m front back le)

idle_step :
    (n : ℕ) (ready : List ℕ) (x : AtlasCommandXfer)
    → IsFresh x
    → ((x' : AtlasCommandXfer) → IsFresh x' → Handed [] ready [] (read_stream x' ready []))
    → Handed [] (n ∷ ready) [] (read_stream x (n ∷ ready) [])
unfolding read_stream
idle_step n ready x fresh ih =
    let none_taken : read_some x n [] ≡ [] =
      take_past (smaller n x.cmd_remaining_len) [] (omega arith) in
    let (x', e, fresh') = idle_read x fresh in
    let (gs, hs, y, rest, split, run, wait, less) = ih x' fresh' in
    (
      gs,
      hs,
      y,
      rest,
      split,
      ap (λ c. rest_of (handle_read x c) ready (drop (length c) [])) none_taken
          ∙ ap (λ m. rest_of m ready []) e
          ∙ ap (λ m. m >>= handed_on none) run,
      wait,
      λ p. omega (arith, less p.1),
    )

frame_step :
    (n : ℕ) (ready : List ℕ) (x : AtlasCommandXfer) (f : Frame) (fs : List Frame) (stream : Bytes)
    → AllFrames (f ∷ fs)
    → AllFit (f ∷ fs)
    → Waiting x (f ∷ fs) stream
    → ((gs : List Frame) (x' : AtlasCommandXfer) (s : Bytes)
        → AllFrames gs
        → AllFit gs
        → Waiting x' gs s
        → Handed gs ready s (read_stream x' ready s))
    → Handed (f ∷ fs) (n ∷ ready) stream (read_stream x (n ∷ ready) stream)
frame_step n ready x f fs stream all fit (reading, same) ih =
    let k : ℕ = x.cmd_len in
    let m : ℕ = smaller n x.cmd_remaining_len in
    let front : Bytes = drop k (frame_bytes f) in
    let bounds = Missing-bounds x.state k x.cmd_remaining_len (length f.value) reading.missing in
    let le = smaller_bounds n x.cmd_remaining_len in
    let fits : m ≤ length front = omega (arith, bounds.0, le.0, length-drop k (frame_bytes f)) in
    let size : length stream ≡ length front + length (encode fs) =
      ap length same ∙ length-append front (encode fs) in
    let step : read_stream x (n ∷ ready) stream
        ≡ rest_of (handle_read x (take m front)) ready (drop m front ++ encode fs) =
      ap (read_stream x (n ∷ ready)) same ∙ one_read x n ready front (encode fs) fits in
    elim (frame_read x.buf x.state k x.cmd_remaining_len m f all.0 fit.0 reading le.0) [
      | inl (x', e, reading', at) ↦
          let left : drop m front ++ encode fs ≡ drop x'.cmd_len (frame_bytes f) ++ encode fs =
            ap (λ d. d ++ encode fs)
              (drop-drop m k (frame_bytes f) ∙ ap (λ j. drop j (frame_bytes f)) (sym at)) in
          let (gs, hs, y, rest, split, run, wait, less) =
            ih (f ∷ fs) x' (drop m front ++ encode fs) all fit (reading', left) in
          (
            gs,
            hs,
            y,
            rest,
            split,
            step
                ∙ ap (λ r. rest_of r ready (drop m front ++ encode fs)) e
                ∙ ap (λ r. r >>= handed_on none) run,
            wait,
            λ p. omega (
              arith,
              less p.1,
              le.1 p.0 bounds.1,
              size,
              length-append (drop m front) (encode fs),
              length-drop m front,
            ),
          )
      | inr (x', e, fresh, at) ↦
          let left : drop m front ++ encode fs ≡ encode fs =
            ap (λ d. d ++ encode fs)
              (drop-drop m k (frame_bytes f) ∙ drop_past (k + m) (frame_bytes f) (omega arith)) in
          let (gs, hs, y, rest, split, run, wait, less) =
            ih fs x' (encode fs) all.1 fit.1 (fresh-Waiting x' fs fresh) in
          (
            f ∷ gs,
            hs,
            y,
            rest,
            ap (λ l. f ∷ l) split,
            step
                ∙ ap (λ r. rest_of r ready (drop m front ++ encode fs)) e
                ∙ ap (λ s. read_stream x' ready s >>= handed_on (some (frame_bytes f))) left
                ∙ ap (λ r. r >>= handed_on (some (frame_bytes f))) run,
            wait,
            λ p. omega (
              arith,
              less p.1,
              le.1 p.0 bounds.1,
              size,
              ap length left,
              length-append (drop m front) (encode fs),
              length-drop m front,
            ),
          )
    ]

pub handed :
    (ready : List ℕ) (fs : List Frame) (x : AtlasCommandXfer) (stream : Bytes)
    → AllFrames fs
    → AllFit fs
    → Waiting x fs stream
    → Handed fs ready stream (read_stream x ready stream)
unfolding read_stream
handed [] fs x stream all fit wait = ([], fs, x, stream, refl, refl, wait, λ p. omega arith)
handed (n ∷ ready) [] x stream all fit wait =
    subst (λ s. Handed [] (n ∷ ready) s (read_stream x (n ∷ ready) s)) (sym wait.1)
      (idle_step n ready x wait.0 (λ y fresh. handed ready [] y [] tt tt (fresh, refl)))
handed (n ∷ ready) (f ∷ fs) x stream all fit wait =
    frame_step n ready x f fs stream all fit wait (λ gs y s. handed ready gs y s)
