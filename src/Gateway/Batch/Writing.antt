-- ===== src/Gateway/Batch/Writing.antt =====
-- The gateway's batches are written as the client's are: frame behind frame.
use resfit.Prelude.{
  ℕ, suc, ◌+◌, ◌<◌, ◌≡◌, refl, sym, ap, ◌∙◌, some, List, [], ◌∷◌, ◌++◌, map, append_assoc,
  append-nil, arith, length, replicate, length-append, length-replicate, ok, ◌>>=◌, zero, ◌/◌, ◌%◌,
  none,
}
use resfit.Prelude.Memory.{
  Bytes, be16, u16, write_at, write_at_over, host_bytes-htons, read_at_all, write_at-append,
}
use resfit.Command.Frame.{Frame, frame, IsFrame, AllFrames, encode, frame_bytes}
use resfit.Gateway.Batch.{
  AtlasCommand, AtlasCommandBatch, atlas_command, no_commands, add_command, add_commands, total_len,
  put_value, put_command, put_commands, get_serialized_added_commands, serialized_commands,
  nested_command, size_of,
}

-- A command with the value of a frame.
abbrev pub command_of : Frame → AtlasCommand
command_of f = atlas_command f.type (length f.value) (some f.value)

total_len-encode :
    (fs : List Frame) → AllFrames fs → total_len (map command_of fs) ≡ length (encode fs)
unfolding total_len
total_len-encode [] all = refl
total_len-encode (f ∷ fs) all =
    omega (arith, all.0.value_fits, total_len-encode fs all.1, length-append f.value (encode fs))

-- The writes behind the first, at their offsets.
write_second :
    (pre tail : Bytes) (a b n : ℕ)
    → write_at (pre ++ (a ∷ b ∷ 0 ∷ 0 ∷ tail)) (length pre + 2) (be16 n)
      ≡ ok (pre ++ (a ∷ b ∷ (be16 n ++ tail)))
write_second pre tail a b n =
    write_at_over (pre ++ (a ∷ b ∷ [])) (0 ∷ 0 ∷ []) tail (be16 n) (simp append_assoc)
      (omega (arith, length-append pre (a ∷ b ∷ []))) refl
    ∙ ap ok (simp append_assoc)

write_third :
    (pre rest v : Bytes) (a b c d : ℕ)
    → write_at (pre ++ (a ∷ b ∷ c ∷ d ∷ (replicate (length v) 0 ++ rest))) (length pre + 4) v
      ≡ ok (pre ++ (a ∷ b ∷ c ∷ d ∷ (v ++ rest)))
write_third pre rest v a b c d =
    write_at_over (pre ++ (a ∷ b ∷ c ∷ d ∷ [])) (replicate (length v) 0) rest v (simp append_assoc)
      (omega (arith, length-append pre (a ∷ b ∷ c ∷ d ∷ [])))
      (omega (arith, length-replicate {A = ℕ} (length v) 0))
    ∙ ap ok (simp append_assoc)

pub u16_id : (n : ℕ) → n < 65536 → u16 n ≡ n
u16_id n h = omega arith

-- Four zeros and room for the value become the frame.
put_command-frame :
    (pre rest : Bytes) (f : Frame)
    → IsFrame f
    → put_command
        (pre ++ (0 ∷ 0 ∷ 0 ∷ 0 ∷ (replicate (length f.value) 0 ++ rest)))
        (length pre)
        (command_of f)
      ≡ ok (pre ++ (frame_bytes f ++ rest))
unfolding put_command put_value
put_command-frame pre rest f all = rw (
  u16_id f.type all.type_fits,
  u16_id (length f.value) all.value_fits,
  host_bytes-htons f.type all.type_fits,
  host_bytes-htons (length f.value) all.value_fits,
  write_at-append pre (0 ∷ 0 ∷ []) (0 ∷ 0 ∷ (replicate (length f.value) 0 ++ rest)) (be16 f.type)
      refl,
  write_second pre (replicate (length f.value) 0 ++ rest) (f.type / 256 % 256) (f.type % 256)
      (length f.value),
  read_at_all f.value,
  write_third pre rest f.value (f.type / 256 % 256) (f.type % 256) (length f.value / 256 % 256)
      (length f.value % 256),
)

replicate-add : (m n : ℕ) → replicate {A = ℕ} (m + n) 0 ≡ replicate m 0 ++ replicate n 0
replicate-add zero n = ap (λ k. replicate {A = ℕ} k 0) (omega arith)
replicate-add (suc m) n =
    let e : suc m + n ≡ suc (m + n) = omega arith in
    ap (λ k. replicate {A = ℕ} k 0) e ∙ ap (λ l. 0 ∷ l) (replicate-add m n)

room_for :
    (f : Frame) (n : ℕ)
    → IsFrame f
    → replicate {A = ℕ} (4 + (command_of f).len + n) 0
      ≡ 0 ∷ 0 ∷ 0 ∷ 0 ∷ (replicate (length f.value) 0 ++ replicate n 0)
room_for f n all =
    ap (λ k. replicate {A = ℕ} k 0)
      (let e : 4 + (command_of f).len + n ≡ suc (suc (suc (suc (length f.value + n)))) =
          omega (arith, all.value_fits) in
        e)
    ∙ ap (λ l. 0 ∷ 0 ∷ 0 ∷ 0 ∷ l) (replicate-add (length f.value) n)

put_commands-encode :
    (pre : Bytes) (fs : List Frame)
    → AllFrames fs
    → put_commands
        (pre ++ replicate (total_len (map command_of fs)) 0)
        (length pre)
        (map command_of fs)
      ≡ ok (pre ++ encode fs)
unfolding put_commands total_len
put_commands-encode pre [] all = refl
put_commands-encode pre (f ∷ fs) all =
    ap
      (λ l. put_command (pre ++ l) (length pre) (command_of f) >>= λ buf.
        put_commands buf (length pre + 4 + (command_of f).len) (map command_of fs))
      (room_for f (total_len (map command_of fs)) all.0)
    ∙ ap
        (λ m.
          m >>= λ buf. put_commands buf (length pre + 4 + (command_of f).len) (map command_of fs))
        (put_command-frame pre (replicate (total_len (map command_of fs)) 0) f all.0)
    ∙ ap (λ buf. put_commands buf (length pre + 4 + (command_of f).len) (map command_of fs))
        (sym (append_assoc pre (frame_bytes f) (replicate (total_len (map command_of fs)) 0)))
    ∙ ap
        (λ n.
          put_commands ((pre ++ frame_bytes f) ++ replicate (total_len (map command_of fs)) 0) n
            (map command_of fs))
        (let e : length pre + 4 + (command_of f).len ≡ length (pre ++ frame_bytes f) =
            omega (arith, all.0.value_fits, length-append pre (frame_bytes f)) in
          e)
    ∙ put_commands-encode (pre ++ frame_bytes f) fs all.1
    ∙ ap ok (append_assoc pre (frame_bytes f) (encode fs))

add_commands-append :
    (b : AtlasCommandBatch) (cmds : List AtlasCommand)
    → (add_commands b cmds).added_cmd ≡ b.added_cmd ++ cmds
unfolding add_commands add_command
add_commands-append b [] = sym (append-nil b.added_cmd)
add_commands-append b (cmd ∷ cmds) =
    add_commands-append (add_command b cmd) cmds ∙ append_assoc b.added_cmd (cmd ∷ []) cmds

-- The gateway writes a list of commands, one at least, whose types and lengths fit 16 bits, into a
-- buffer that it has sized by itself: no write leaves the buffer, and it then holds the commands,
-- in the order in which they were added.
pub serialized_commands-encode :
    (f : Frame) (fs : List Frame)
    → AllFrames (f ∷ fs)
    → serialized_commands (map command_of (f ∷ fs)) ≡ ok (some (encode (f ∷ fs)))
unfolding serialized_commands get_serialized_added_commands
serialized_commands-encode f fs all =
    rw (add_commands-append no_commands (map command_of (f ∷ fs)))
      (ap (λ m. m >>= λ buf. ok (some buf)) (put_commands-encode [] (f ∷ fs) all))

-- A command without a value is a frame with an empty one.
pub serialized_commands-bare :
    (t : ℕ)
    → t < 65536
    → serialized_commands (atlas_command t 0 none ∷ []) ≡ ok (some (encode (frame t [] ∷ [])))
unfolding serialized_commands get_serialized_added_commands put_commands put_command put_value
    total_len
serialized_commands-bare t h = rw (
  u16_id t h,
  host_bytes-htons t h,
  host_bytes-htons 0 (omega arith),
  write_at-append [] (0 ∷ 0 ∷ []) (0 ∷ 0 ∷ []) (be16 t) refl,
  write_at-append (be16 t) (0 ∷ 0 ∷ []) [] (be16 0) refl,
)

-- So is a command around commands, if their bytes fit 16 bits.
pub nested_command-encode :
    (type : ℕ) (f : Frame) (fs : List Frame)
    → type < 65536
    → AllFrames (f ∷ fs)
    → length (encode (f ∷ fs)) < 65536
    → nested_command type (map command_of (f ∷ fs))
      ≡ ok (some (encode (frame type (encode (f ∷ fs)) ∷ [])))
unfolding nested_command
nested_command-encode type f fs fits all small =
    ap (λ m. m >>= λ inner. serialized_commands (atlas_command type (size_of inner) inner ∷ []))
      (serialized_commands-encode f fs all)
    ∙ serialized_commands-encode (frame type (encode (f ∷ fs))) []
        (record { type_fits = fits; value_fits = small }, tt)
