-- ===== src/Command/Build.antt =====
-- `atlas_cmd_batch_add` appends a frame.
use resfit.Prelude.{
  ℕ, suc, ◌+◌, ◌/◌, ◌%◌, ◌<◌, ◌≡◌, refl, ap, ◌∙◌, Option, none, some, List, [], ◌∷◌, ◌++◌,
  append_assoc, append-nil, arith, length, replicate, length-append, length-replicate, ok,
}
use resfit.Prelude.Memory.{
  Bytes, u16, be16, write_at, realloc, realloc-append, write_at_over, write_at-append,
  host_bytes-htons, read_at_all,
}
use resfit.Command.{CmdBatch, append_cmd, add, block, get_buf, sent_bytes}
use resfit.Command.Frame.{Frame, IsFrame, encode, encode-append, batch_of}

realloc-header :
    (old : Bytes) (n : ℕ)
    → realloc old (length old + 4 + n) ≡ old ++ (0 ∷ 0 ∷ 0 ∷ 0 ∷ replicate n 0)
realloc-header old n = ap (realloc old) (omega arith) ∙ realloc-append old (suc (suc (suc (suc n))))

-- The three writes of `atlas_cmd_batch_add` fill the new bytes.
write_value :
    (old v : Bytes)
    → write_at (old ++ (0 ∷ 0 ∷ 0 ∷ 0 ∷ replicate (length v) 0)) (length old + 4) v
      ≡ ok (old ++ (0 ∷ 0 ∷ 0 ∷ 0 ∷ v))
write_value old v =
    write_at_over (old ++ (0 ∷ 0 ∷ 0 ∷ 0 ∷ [])) (replicate (length v) 0) [] v
      (simp (append_assoc, append-nil)) (omega (arith, length-append old (0 ∷ 0 ∷ 0 ∷ 0 ∷ [])))
      (omega (arith, length-replicate {A = ℕ} (length v) 0))
    ∙ ap ok (simp (append_assoc, append-nil))

write_length :
    (old v : Bytes) (a b n : ℕ)
    → write_at (old ++ (a ∷ b ∷ 0 ∷ 0 ∷ v)) (length old + 2) (be16 n)
      ≡ ok (old ++ (a ∷ b ∷ (be16 n ++ v)))
write_length old v a b n =
    write_at_over (old ++ (a ∷ b ∷ [])) (0 ∷ 0 ∷ []) v (be16 n) (simp append_assoc)
      (omega (arith, length-append old (a ∷ b ∷ []))) refl
    ∙ ap ok (simp append_assoc)

append_cmd-bytes :
    (old v : Bytes) (buf : Option Bytes) (type : ℕ)
    → block buf ≡ old
    → type < 65536
    → length old + 4 + length v < 65536
    → append_cmd (record { len = length old; buf = buf }) type (length v) v
      ≡ ok (record {
        len = length old + 4 + length v;
        buf = some (old ++ (be16 type ++ (be16 (length v) ++ v)));
      })
unfolding append_cmd
append_cmd-bytes old v buf type o t fits = rw (
  o,
  read_at_all v,
  (let e : u16 (length old + 4 + length v) ≡ length old + 4 + length v = omega arith in e),
  realloc-header old (length v),
  write_value old v,
  host_bytes-htons type t,
  host_bytes-htons (length v) (let e : length v < 65536 = omega arith in e),
  write_at-append old (0 ∷ 0 ∷ []) (0 ∷ 0 ∷ v) (be16 type) refl,
  write_length old v (type / 256 % 256) (type % 256) (length v),
)

batch_eq :
    {m n : ℕ} {x y : Option Bytes}
    → m ≡ n
    → x ≡ y
    → ◌≡◌ {A = CmdBatch} (record { len = m; buf = x }) (record { len = n; buf = y })
batch_eq p q = λ i. record { len = p i; buf = q i }

length-encode-append :
    (fs : List Frame) (f : Frame)
    → length (encode (fs ++ f ∷ [])) ≡ length (encode fs) + 4 + length f.value
length-encode-append fs f = omega (
  arith,
  ap length (encode-append fs (f ∷ [])),
  length-append (encode fs) (encode (f ∷ [])),
  length-append f.value [],
)

-- Adding a frame to a batch of frames gives the batch of all of them: the type, the length and the
-- value, behind the frames that were there. The type and the length of the new frame, and the
-- length of the whole, must fit 16 bits.
pub add-batch_of :
    (fs : List Frame) (f : Frame)
    → IsFrame f
    → length (encode (fs ++ f ∷ [])) < 65536
    → add (some (batch_of fs)) f.type (length f.value) f.value ≡ ok (some (batch_of (fs ++ f ∷ [])))
unfolding add
add-batch_of [] f g fits =
    rw
      (append_cmd-bytes [] f.value none f.type refl g.type_fits
        (omega (arith, length-encode-append [] f)))
      (ap (λ b. ok (some b)) (batch_eq (omega (arith, length-append f.value [])) (simp append-nil)))
add-batch_of (x ∷ fs) f g fits =
    let old = encode (x ∷ fs) in
    rw
      (append_cmd-bytes old f.value (some old) f.type refl g.type_fits
        (omega (arith, length-encode-append (x ∷ fs) f)))
      (ap (λ b. ok (some b))
        (batch_eq (omega (arith, length-encode-append (x ∷ fs) f))
          (ap some (simp (encode-append, append_assoc, append-nil)))))

-- The bytes that a sender reads from a batch of frames are those of the frames.
pub sent_bytes-batch_of : (fs : List Frame) → sent_bytes (some (batch_of fs)) ≡ ok (encode fs)
unfolding sent_bytes get_buf
sent_bytes-batch_of [] = read_at_all []
sent_bytes-batch_of (f ∷ fs) = read_at_all (encode (f ∷ fs))
