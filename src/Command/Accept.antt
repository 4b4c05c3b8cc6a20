-- ===== src/Command/Accept.antt =====
-- `atlas_cmd_batch_set_raw` accepts a buffer exactly if it is the bytes of a list of frames, at
-- least one, and then the batch holds those frames.
use resfit.Prelude.{
  ℕ, zero, suc, ◌+◌, ◌-◌, ◌*◌, ◌%◌, ◌/◌, ◌≤◌, ◌<◌, ◌≡◌, ◌≢◌, ◌⊎◌, inl, inr, refl, sym, ap, ◌∙◌,
  some, List, [], ◌∷◌, ◌++◌, arith, length, take, drop, length-append, length-drop, drop-append,
  take-length, ok, Bool, true, false, ltb, ◌==◌, if◌then◌else◌, Bool-cases, le→ltb_false,
  length-take_le, take-split,
}
use resfit.Prelude.Memory.{
  Bytes, AllBytes, ntohs, be16, read_at_all, htons-lt, load_u16_at_two, be16-ntohs, drop-AllBytes,
}
use resfit.Status.{Status}
use resfit.Command.{CmdBatch, validate, store_raw, set_raw}
use resfit.Command.Frame.{Frame, frame, AllFrames, encode, batch_of}

abbrev field : ℕ → ℕ → ℕ
field c d = ntohs (c + d * 256)

-- The rounds of the validation loop: at the end, at a short rest, and at a header.
validate_end : (fuel : ℕ) (p : Bytes) → validate (suc fuel) p 0 ≡ ok true
unfolding validate
validate_end fuel p = refl

validate_short : (fuel : ℕ) (p : Bytes) (n : ℕ) → 0 < n → n < 4 → validate (suc fuel) p n ≡ ok false
unfolding validate
validate_short fuel p n h k = ground arith

validate_header :
    (fuel a b c d : ℕ) (q : Bytes) (n : ℕ)
    → 4 ≤ n
    → validate (suc fuel) (a ∷ b ∷ c ∷ d ∷ q) n ≡ (
        if ltb (n - 4) (field c d)
        then ok false
        else validate fuel (drop (field c d) q) (n - 4 - field c d))
unfolding validate
validate_header fuel a b c d q n h =
    let skip : drop (4 + field c d) (a ∷ b ∷ c ∷ d ∷ q) ≡ drop (field c d) q =
      ap (λ k. drop k (a ∷ b ∷ c ∷ d ∷ q))
        (let e : 4 + field c d ≡ suc (suc (suc (suc (field c d)))) = omega arith in e) in
    ground (arith, load_u16_at_two a b c d q, skip)

-- The bytes of frames are valid.
validate-encode :
    (fs : List Frame) (fuel : ℕ)
    → AllFrames fs
    → length (encode fs) < fuel
    → validate fuel (encode fs) (length (encode fs)) ≡ ok true
validate-encode fs zero all h = elim h [ ]
validate-encode [] (suc fuel) all h = validate_end fuel []
validate-encode (f ∷ fs) (suc fuel) all h =
    let n : ℕ = length f.value in
    let total : ℕ = length (encode (f ∷ fs)) in
    let same : field (n / 256 % 256) (n % 256) ≡ n = omega (arith, all.0.value_fits) in
    let rest : total - 4 - n ≡ length (encode fs) =
      omega (arith, length-append f.value (encode fs)) in
    rw
      (
        validate_header fuel (f.type / 256 % 256) (f.type % 256) (n / 256 % 256) (n % 256)
            (f.value ++ encode fs) total (omega arith),
        same,
        le→ltb_false (total - 4) n (omega (arith, length-append f.value (encode fs))),
        rest,
        drop-append f.value (encode fs),
      )
      (validate-encode fs fuel all.1 (omega (arith, length-append f.value (encode fs))))

validate_total :
    (fuel : ℕ) (p : Bytes) (n : ℕ)
    → n ≤ length p
    → n < fuel
    → (r : Bool) × (validate fuel p n ≡ ok r)
validate_total zero p n le h = elim h [ ]
validate_total (suc fuel) p zero le h = (true, validate_end fuel p)
validate_total (suc fuel) (a ∷ b ∷ c ∷ d ∷ q) (suc (suc (suc (suc n)))) le h =
    elim (Bool-cases (ltb (suc (suc (suc (suc n))) - 4) (field c d))) [
      | inl over ↦
          (false, rw (validate_header fuel a b c d q (suc (suc (suc (suc n)))) (omega arith), over))
      | inr fits ↦
          rw (validate_header fuel a b c d q (suc (suc (suc (suc n)))) (omega arith), fits)
            (validate_total fuel (drop (field c d) q) _ (omega (arith, length-drop (field c d) q))
              (omega arith))
    ]
validate_total (suc fuel) p n le h = (false, validate_short fuel p n (omega arith) (omega arith))

-- A header with enough bytes behind it, before the bytes of frames, gives one frame more.
frame-cons :
    (a b c d m : ℕ) (q : Bytes) (fs : List Frame)
    → AllBytes (a ∷ b ∷ c ∷ d ∷ q)
    → AllFrames fs
    → field c d ≤ m
    → m ≤ length q
    → take (m - field c d) (drop (field c d) q) ≡ encode fs
    → (gs : List Frame) × AllFrames gs
      × (take (suc (suc (suc (suc m)))) (a ∷ b ∷ c ∷ d ∷ q) ≡ encode gs)
frame-cons a b c d m q fs bytes all fits le e =
    let v : Bytes = take (field c d) q in
    let size : length v ≡ field c d = length-take_le (field c d) q (omega arith) in
    let type : be16 (field a b) ≡ a ∷ b ∷ [] = be16-ntohs a b bytes.0 bytes.1.0 in
    let len : be16 (length v) ≡ c ∷ d ∷ [] =
      ap be16 size ∙ be16-ntohs c d bytes.1.1.0 bytes.1.1.1.0 in
    let body : take m q ≡ v ++ encode fs = take-split (field c d) m q fits ∙ ap (λ r. v ++ r) e in
    (
      frame (field a b) v ∷ fs,
      (record { type_fits = htons-lt _; value_fits = omega (arith, htons-lt (c + d * 256)) }, all),
      λ i. sym type i ++ (sym len i ++ body i),
    )

validate_cons :
    (fuel a b c d n : ℕ) (q : Bytes)
    → validate (suc fuel) (a ∷ b ∷ c ∷ d ∷ q) (suc (suc (suc (suc n))))
      ≡ (if ltb n (field c d) then ok false else validate fuel (drop (field c d) q) (n - field c d))
validate_cons fuel a b c d n q =
    validate_header fuel a b c d q (suc (suc (suc (suc n)))) (omega arith)
    ∙ ap
        (λ m.
          if ltb m (field c d)
          then ok false
          else validate fuel (drop (field c d) q) (m - field c d))
        (let e : suc (suc (suc (suc n))) - 4 ≡ n = omega arith in e)

-- Valid bytes are those of frames.
validate_sound :
    (fuel : ℕ) (p : Bytes) (n : ℕ)
    → n ≤ length p
    → AllBytes p
    → validate fuel p n ≡ ok true
    → (fs : List Frame) × AllFrames fs × (take n p ≡ encode fs)
validate_sound zero p n le bytes e = unfold validate in cc
validate_sound (suc fuel) p zero le bytes e = ([], tt, refl)
validate_sound (suc fuel) (a ∷ b ∷ c ∷ d ∷ q) (suc (suc (suc (suc n)))) le bytes e =
    let round = sym (validate_cons fuel a b c d n q) ∙ e in
    elim (Bool-cases (ltb n (field c d))) [
      | inl over ↦ absurd (cc (round, over))
      | inr fits ↦
          let (fs, all, rest) =
            validate_sound fuel (drop (field c d) q) (n - field c d)
              (omega (arith, length-drop (field c d) q)) (drop-AllBytes (field c d) q bytes.1.1.1.1)
              (rw fits at round) in
          frame-cons a b c d n q fs bytes all (ground arith) (omega arith) rest
    ]
validate_sound (suc fuel) p n le bytes e =
    absurd (cc (e, validate_short fuel p n (omega arith) (omega arith)))

-- What `atlas_cmd_batch_set_raw` does once the loop has validated the buffer.
set_raw_valid :
    (b : CmdBatch) (x : ℕ) (xs : Bytes) (r : Bool)
    → validate (length (x ∷ xs) + 1) (x ∷ xs) (length (x ∷ xs)) ≡ ok r
    → set_raw b (some (x ∷ xs)) (length (x ∷ xs)) ≡ store_raw b (x ∷ xs) (length (x ∷ xs)) r
unfolding set_raw
set_raw_valid b x xs r e = rw ((let z : (length (x ∷ xs) == 0) ≡ false = ground arith in z), e)

store_raw_all :
    (b : CmdBatch) (buf : Bytes)
    → store_raw b buf (length buf) true
      ≡ ok (record { len = length buf; buf = some buf }, Status.ok)
store_raw_all b buf = rw (read_at_all buf)

-- A list of frames is accepted, and the batch holds it.
pub set_raw-encode :
    (b : CmdBatch) (f : Frame) (fs : List Frame)
    → AllFrames (f ∷ fs)
    → set_raw b (some (encode (f ∷ fs))) (length (encode (f ∷ fs)))
      ≡ ok (batch_of (f ∷ fs), Status.ok)
set_raw-encode b f fs all =
    set_raw_valid b _ _ true (validate-encode (f ∷ fs) _ all (omega arith))
    ∙ store_raw_all b (encode (f ∷ fs))

-- The bytes are those of frames.
abbrev pub IsEncoded : Bytes → Type 0
IsEncoded buf = (fs : List Frame) × AllFrames fs × (buf ≡ encode fs)

-- Bytes that are accepted are those of one frame or more, all of them stored.
abbrev pub Accepted : CmdBatch → Bytes → Type 0
Accepted b buf =
    (f : Frame) × (fs : List Frame) × AllFrames (f ∷ fs)
    × (buf ≡ encode (f ∷ fs))
    × (set_raw b (some buf) (length buf) ≡ ok (batch_of (f ∷ fs), Status.ok))

abbrev pub Refused : CmdBatch → Bytes → Type 0
Refused b buf =
    (¬ IsEncoded buf) × (set_raw b (some buf) (length buf) ≡ ok (b, Status.corrupted_command))

frames-Accepted : (b : CmdBatch) (x : ℕ) (xs : Bytes) → IsEncoded (x ∷ xs) → Accepted b (x ∷ xs)
frames-Accepted b x xs ([], all, e) = absurd (cc)
frames-Accepted b x xs (f ∷ fs, all, e) =
    (f, fs, all, e, ap (λ m. set_raw b (some m) (length m)) e ∙ set_raw-encode b f fs all)

invalid-Refused :
    (b : CmdBatch) (x : ℕ) (xs : Bytes)
    → validate (length (x ∷ xs) + 1) (x ∷ xs) (length (x ∷ xs)) ≡ ok false
    → Refused b (x ∷ xs)
invalid-Refused b x xs e = (not_frames, set_raw_valid b x xs false e)
  where
    not_frames : ¬ IsEncoded (x ∷ xs)
    not_frames (fs, all, same) =
        let valid : validate (length (x ∷ xs) + 1) (x ∷ xs) (length (x ∷ xs)) ≡ ok true =
          ap (λ m. validate (length m + 1) m (length m)) same
          ∙ validate-encode fs (length (encode fs) + 1) all (omega arith) in
        cc (valid, e)

-- On a buffer of one byte or more, given with its length, `atlas_cmd_batch_set_raw` never reads
-- outside it and its loop ends. Either the bytes are those of one frame or more, all of which the
-- batch then holds, or they are not the bytes of frames, the status is a corrupted command and the
-- batch unchanged.
pub set_raw-cases :
    (b : CmdBatch) (buf : Bytes) → AllBytes buf → buf ≢ [] → Accepted b buf ⊎ Refused b buf
set_raw-cases b [] bytes ne = absurd (ne refl)
set_raw-cases b (x ∷ xs) bytes ne =
    split
      (validate_total (length (x ∷ xs) + 1) (x ∷ xs) (length (x ∷ xs)) (omega arith) (omega arith))
  where
    split :
        ((r : Bool) × (validate (length (x ∷ xs) + 1) (x ∷ xs) (length (x ∷ xs)) ≡ ok r))
        → Accepted b (x ∷ xs) ⊎ Refused b (x ∷ xs)
    split (true, e) =
        let (fs, all, same) =
          validate_sound (length (x ∷ xs) + 1) (x ∷ xs) (length (x ∷ xs)) (omega arith) bytes e in
        inl (frames-Accepted b x xs (fs, all, sym (take-length (x ∷ xs)) ∙ same))
    split (false, e) = inr (invalid-Refused b x xs e)
