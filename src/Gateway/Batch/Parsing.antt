-- ===== src/Gateway/Batch/Parsing.antt =====
-- What the gateway's parser makes of bytes: the commands of the frames at their start.
use resfit.Prelude.{
  ℕ, zero, suc, ◌+◌, ◌-◌, ◌*◌, ◌/◌, ◌%◌, ◌≤◌, ◌<◌, ◌≡◌, ◌≢◌, inl, inr, refl, sym, ap, ◌∙◌, some,
  List, [], ◌∷◌, ◌++◌, map, append_assoc, arith, length, take, drop, ltb, Bool-cases, length-append,
  length-drop, length-take_le, take-append-drop, drop-append, take-append, not_empty, Exec, ok,
  ◌>>=◌, ub, spent,
}
use resfit.Prelude.Memory.{
  Bytes, AllBytes, ntohs, be16, read_at, read_at-append, read_at_all, load_u16_first,
  load_u16_at_two, htons-lt, be16-ntohs, drop-AllBytes,
}
use resfit.Command.Frame.{Frame, frame, IsFrame, AllFrames, encode}
use resfit.Gateway.Batch.{
  AtlasCommand, atlas_command, parse_commands, set_raw_commands, received_commands, no_commands,
}
use resfit.Gateway.Batch.Writing.{command_of}

abbrev field : ℕ → ℕ → ℕ
field c d = ntohs (c + d * 256)

-- The value behind a header.
value_at :
    (a b c d k : ℕ) (q : Bytes) → k ≤ length q → read_at (a ∷ b ∷ c ∷ d ∷ q) 4 k ≡ ok (take k q)
value_at a b c d k q h =
    ap (λ l. read_at (a ∷ b ∷ c ∷ d ∷ l) 4 k) (sym (take-append-drop k q))
    ∙ ap (read_at (a ∷ b ∷ c ∷ d ∷ (take k q ++ drop k q)) 4) (sym (length-take_le k q h))
    ∙ read_at-append (a ∷ b ∷ c ∷ d ∷ []) (take k q) (drop k q)

abbrev consed : AtlasCommand → Exec (List AtlasCommand) → Exec (List AtlasCommand)
consed cmd m = m >>= λ cmds. ok (cmd ∷ cmds)

parse_end : (fuel : ℕ) (p : Bytes) → parse_commands (suc fuel) p 0 ≡ ok []
unfolding parse_commands
parse_end fuel p = refl

-- Fewer than four bytes are no command.
parse_short :
    (fuel : ℕ) (p : Bytes) (n : ℕ) → n < 4 → n ≤ length p → parse_commands (suc fuel) p n ≡ ok []
unfolding parse_commands
parse_short fuel [] n h le = ground arith
parse_short fuel (a ∷ []) n h le = ground arith
parse_short fuel (a ∷ b ∷ p) n h le = ground (arith, load_u16_first a b p)

-- A header whose value is not there.
parse_over :
    (fuel a b c d n : ℕ) (q : Bytes)
    → n < field c d
    → parse_commands (suc fuel) (a ∷ b ∷ c ∷ d ∷ q) (suc (suc (suc (suc n)))) ≡ ok []
unfolding parse_commands
parse_over fuel a b c d n q h =
    ground (arith, load_u16_first a b (c ∷ d ∷ q), load_u16_at_two a b c d q)

-- A header whose value is there.
parse_fits :
    (fuel a b c d n : ℕ) (q : Bytes)
    → field c d ≤ n
    → n ≤ length q
    → parse_commands (suc fuel) (a ∷ b ∷ c ∷ d ∷ q) (suc (suc (suc (suc n))))
      ≡ consed
          (atlas_command (field a b) (field c d) (some (take (field c d) q)))
          (parse_commands fuel (drop (field c d) q) (n - field c d))
unfolding parse_commands
parse_fits fuel a b c d n q h le = ground (
  arith,
  load_u16_first a b (c ∷ d ∷ q),
  load_u16_at_two a b c d q,
  value_at a b c d (field c d) q,
)

-- Bytes that do not begin with a whole command.
abbrev pub IsPartial : Bytes → Type 0
IsPartial rest =
    (f : Frame) (tail : Bytes)
    → IsFrame f
    → rest ≢ be16 f.type ++ (be16 (length f.value) ++ (f.value ++ tail))

-- What the parser makes of bytes: the commands of frames, and a rest that it leaves.
abbrev pub Parsed : Bytes → Exec (List AtlasCommand) → Type 0
Parsed buf m =
    (fs : List Frame) × (rest : Bytes) × AllFrames fs
    × IsPartial rest
    × (buf ≡ encode fs ++ rest)
    × (m ≡ ok (map command_of fs))

short-IsPartial : (p : Bytes) → length p < 4 → IsPartial p
short-IsPartial p h f tail all e = ground (arith, ap length e, length-append f.value tail)

over-IsPartial : (a b c d : ℕ) (q : Bytes) → length q < field c d → IsPartial (a ∷ b ∷ c ∷ d ∷ q)
over-IsPartial a b c d q h f tail all e = ground (arith, length-append f.value tail, all.value_fits)

-- A whole command before bytes that are parsed.
cons-Parsed :
    (a b c d : ℕ) (q : Bytes) (m : Exec (List AtlasCommand))
    → AllBytes (a ∷ b ∷ c ∷ d ∷ q)
    → field c d ≤ length q
    → Parsed (drop (field c d) q) m
    → Parsed
        (a ∷ b ∷ c ∷ d ∷ q)
        (consed (atlas_command (field a b) (field c d) (some (take (field c d) q))) m)
cons-Parsed a b c d q m bytes fits (fs, rest, all, part, same, e) =
    let v : Bytes = take (field c d) q in
    let size : length v ≡ field c d = length-take_le (field c d) q fits in
    let type : be16 (field a b) ≡ a ∷ b ∷ [] = be16-ntohs a b bytes.0 bytes.1.0 in
    let len : be16 (length v) ≡ c ∷ d ∷ [] =
      ap be16 size ∙ be16-ntohs c d bytes.1.1.0 bytes.1.1.1.0 in
    let body : q ≡ (v ++ encode fs) ++ rest =
      sym (take-append-drop (field c d) q)
      ∙ ap (λ r. v ++ r) same
      ∙ sym (append_assoc v (encode fs) rest) in
    (
      frame (field a b) v ∷ fs,
      rest,
      (record { type_fits = htons-lt _; value_fits = omega (arith, htons-lt (c + d * 256)) }, all),
      part,
      λ i. sym type i ++ (sym len i ++ body i),
      ap (consed (atlas_command (field a b) (field c d) (some v))) e
          ∙ ap (λ n. ok (atlas_command (field a b) n (some v) ∷ map command_of fs)) (sym size),
    )

parse_all :
    (fuel : ℕ) (p : Bytes)
    → length p < fuel
    → AllBytes p
    → Parsed p (parse_commands fuel p (length p))
parse_all zero p h bytes = elim h [ ]
parse_all (suc fuel) (a ∷ b ∷ c ∷ d ∷ q) h bytes = elim (Bool-cases (ltb (length q) (field c d))) [
  | inl over ↦ (
    [],
    a ∷ b ∷ c ∷ d ∷ q,
    tt,
    over-IsPartial a b c d q (ground arith),
    refl,
    parse_over fuel a b c d (length q) q (ground arith),
  )
  | inr fits ↦
      rw
        (
          parse_fits fuel a b c d (length q) q (ground arith) (omega arith),
          ← length-drop (field c d) q,
        )
        (cons-Parsed a b c d q
          (parse_commands fuel (drop (field c d) q) (length (drop (field c d) q))) bytes
          (ground arith)
          (parse_all fuel (drop (field c d) q) (omega (arith, length-drop (field c d) q))
            (drop-AllBytes (field c d) q bytes.1.1.1.1)))
]
parse_all (suc fuel) p h bytes = (
  [],
  p,
  tt,
  short-IsPartial p (omega arith),
  refl,
  parse_short fuel p (length p) (omega arith) (omega arith),
)

through_batch :
    (m : Exec (List AtlasCommand))
    → (m >>= (λ cmds. ok (record no_commands { parsed_cmd = cmds })) >>= (λ b. ok b.parsed_cmd)) ≡ m
through_batch (ok cmds) = refl
through_batch ub = refl
through_batch spent = refl

received_commands-parse :
    (x : ℕ) (xs : Bytes)
    → received_commands (some (x ∷ xs)) (length (x ∷ xs))
      ≡ parse_commands (length (x ∷ xs) + 1) (x ∷ xs) (length (x ∷ xs))
unfolding received_commands set_raw_commands
received_commands-parse x xs = rw (not_empty x xs, read_at_all (x ∷ xs)) (through_batch _)

-- The gateway parses every buffer, given with its length, without a read outside it: it finds the
-- frames at the start of the bytes, up to the first that is not whole, and keeps those.
pub received_commands-Parsed :
    (buf : Bytes) → AllBytes buf → Parsed buf (received_commands (some buf) (length buf))
unfolding received_commands set_raw_commands
received_commands-Parsed [] bytes = ([], [], tt, short-IsPartial [] (omega arith), refl, refl)
received_commands-Parsed (x ∷ xs) bytes =
    rw (received_commands-parse x xs) (parse_all (length (x ∷ xs) + 1) (x ∷ xs) (omega arith) bytes)

parse-encode :
    (fuel : ℕ) (fs : List Frame)
    → length (encode fs) < fuel
    → AllFrames fs
    → parse_commands fuel (encode fs) (length (encode fs)) ≡ ok (map command_of fs)
parse-encode zero fs h all = elim h [ ]
parse-encode (suc fuel) [] h all = parse_end fuel []
parse-encode (suc fuel) (f ∷ fs) h all =
    let n : ℕ = length f.value in
    let q : Bytes = f.value ++ encode fs in
    let a : ℕ = f.type / 256 % 256 in
    let b : ℕ = f.type % 256 in
    let c : ℕ = n / 256 % 256 in
    let d : ℕ = n % 256 in
    let type : field a b ≡ f.type = omega (arith, all.0.type_fits) in
    let len : field c d ≡ n = omega (arith, all.0.value_fits) in
    let sum : length q ≡ n + length (encode fs) = length-append f.value (encode fs) in
    parse_fits fuel a b c d (length q) q (omega arith) (omega arith)
    ∙ ap
        (λ k.
          consed (atlas_command (field a b) k (some (take k q)))
            (parse_commands fuel (drop k q) (length q - k)))
        len
    ∙ ap
        (λ t.
          consed (atlas_command t n (some (take n q)))
            (parse_commands fuel (drop n q) (length q - n)))
        type
    ∙ ap
        (λ v.
          consed (atlas_command f.type n (some v)) (parse_commands fuel (drop n q) (length q - n)))
        (take-append f.value (encode fs))
    ∙ ap (λ r. consed (command_of f) (parse_commands fuel r (length q - n)))
        (drop-append f.value (encode fs))
    ∙ ap (λ k. consed (command_of f) (parse_commands fuel (encode fs) k))
        (let e : length q - n ≡ length (encode fs) = omega arith in e)
    ∙ ap (consed (command_of f)) (parse-encode fuel fs (omega (arith, sum)) all.1)

-- The bytes of frames, one at least, are parsed as their commands.
pub received_commands-encode :
    (f : Frame) (fs : List Frame)
    → AllFrames (f ∷ fs)
    → received_commands (some (encode (f ∷ fs))) (length (encode (f ∷ fs)))
      ≡ ok (map command_of (f ∷ fs))
received_commands-encode f fs all =
    received_commands-parse _ _
    ∙ parse-encode (length (encode (f ∷ fs)) + 1) (f ∷ fs) (omega arith) all
