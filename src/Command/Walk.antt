-- ===== src/Command/Walk.antt =====
-- Walking over a batch with `atlas_cmd_batch_get`: a reader's loop runs its body on the frames of
-- the batch, in order, whatever the body does.
use resfit.Prelude.{
  ℕ, zero, suc, ◌+◌, ◌≤◌, ◌<◌, ◌≡◌, refl, ap, ◌∙◌, none, some, List, [], ◌∷◌, ◌++◌, append_assoc,
  arith, length, length-append, drop-append, Exec, ok, ◌>>=◌, Bool, true, false, le→leb,
  lt→leb_false, bind_cong,
}
use resfit.Prelude.Memory.{
  Bytes, htons, host_bytes, be16, write_at, load_u16, write_at_over, load_u16_over,
  load_u16-be16_over, ntohs-htons, load_u16-be16, load_u16-host_bytes, write_at-append,
}
use resfit.Command.{CmdBatch, Cmd, to_host, next_cmd, get_at, get, view, while_cmd, for_each_cmd}
use resfit.Command.Frame.{Frame, IsFrame, AllFrames, encode, batch_of}

-- What a reader sees of each frame: its fields, and the block from its value on.
abbrev pub views : List Frame → List Cmd
views [] = []
views (f ∷ fs) =
    record { type = f.type; length = length f.value; value = f.value ++ encode fs } ∷ views fs

-- The body run on each of a list of commands, until it leaves.
module _ {S : Type 0} (body : Cmd → S → Exec (S × Bool)) where
  unfoldable pub run_body : List Cmd → S → Exec S
  run_body [] s = ok s
  run_body (c ∷ cs) s = do
    (s', leave) ← body c s
    elim leave [ true ↦ ok s' | false ↦ run_body cs s' ]

-- The bytes of frames, the header of the first one in host order.
abbrev hosted : Frame → List Frame → Bytes
hosted f fs = host_bytes f.type ++ (host_bytes (length f.value) ++ (f.value ++ encode fs))

abbrev batch : ℕ → Bytes → CmdBatch
batch n mem = record { len = n; buf = some mem }

to_host-encode :
    (n : ℕ) (pre : Bytes) (f : Frame) (fs : List Frame)
    → IsFrame f
    → to_host (batch n (pre ++ encode (f ∷ fs))) (length pre) ≡ ok (batch n (pre ++ hosted f fs))
unfolding to_host
to_host-encode n pre f fs g =
    let rest : Bytes = be16 (length f.value) ++ (f.value ++ encode fs) in
    let pre' : Bytes = pre ++ host_bytes f.type in
    let mem : Bytes = pre ++ (host_bytes f.type ++ rest) in
    let at : length pre + 2 ≡ length pre' = omega (arith, length-append pre (host_bytes f.type)) in
    let load : load_u16 mem (length pre + 2) ≡ ok (htons (length f.value)) =
      load_u16-be16_over pre' (f.value ++ encode fs) (length f.value) (simp append_assoc) at
        g.value_fits in
    let write : write_at mem (length pre + 2) (host_bytes (length f.value))
        ≡ ok (pre ++ hosted f fs) =
      write_at_over pre' (be16 (length f.value)) (f.value ++ encode fs)
        (host_bytes (length f.value)) (simp append_assoc) at refl
      ∙ ap ok (simp append_assoc) in
    rw (
      load_u16-be16 pre rest f.type g.type_fits,
      ntohs-htons f.type g.type_fits,
      write_at-append pre (be16 f.type) rest (host_bytes f.type) refl,
      load,
      ntohs-htons (length f.value) g.value_fits,
      write,
    )

load-hosted_length :
    (pre : Bytes) (f : Frame) (fs : List Frame)
    → IsFrame f
    → load_u16 (pre ++ hosted f fs) (length pre + 2) ≡ ok (length f.value)
load-hosted_length pre f fs g =
    load_u16_over (pre ++ host_bytes f.type) (f.value ++ encode fs) (length f.value)
      (simp append_assoc) (omega (arith, length-append pre (host_bytes f.type))) g.value_fits

view-hosted :
    (n : ℕ) (pre : Bytes) (f : Frame) (fs : List Frame)
    → IsFrame f
    → view (batch n (pre ++ hosted f fs)) (length pre)
      ≡ ok (record { type = f.type; length = length f.value; value = f.value ++ encode fs })
unfolding view
view-hosted n pre f fs g =
    let pre' : Bytes = pre ++ (host_bytes f.type ++ host_bytes (length f.value)) in
    let at : length pre + 4 ≡ length pre' =
      omega (arith, length-append pre (host_bytes f.type ++ host_bytes (length f.value))) in
    let mem : pre ++ hosted f fs ≡ pre' ++ (f.value ++ encode fs) = simp append_assoc in
    rw (
      load_u16-host_bytes pre (host_bytes (length f.value) ++ (f.value ++ encode fs)) f.type
          g.type_fits,
      load-hosted_length pre f fs g,
      at,
      mem,
      drop-append pre' (f.value ++ encode fs),
    )

-- Behind the last frame there is no command.
get-last :
    (n : ℕ) (pre : Bytes) (f : Frame)
    → IsFrame f
    → n ≡ length (pre ++ hosted f [])
    → get (batch n (pre ++ hosted f [])) (some (length pre))
      ≡ ok (batch n (pre ++ hosted f []), none)
unfolding get next_cmd get_at
get-last n pre f g e = rw (
  load-hosted_length pre f [] g,
  le→leb n (length pre + 4 + length f.value)
      (omega (arith, length-append pre (hosted f []), length-append f.value [])),
)

-- Behind any other frame there is the next one, and its header is turned to host order.
get-next :
    (n : ℕ) (pre : Bytes) (f h : Frame) (fs : List Frame)
    → IsFrame f
    → IsFrame h
    → n ≡ length (pre ++ hosted f (h ∷ fs))
    → let pre' = pre ++ (host_bytes f.type ++ (host_bytes (length f.value) ++ f.value)) in
      get (batch n (pre ++ hosted f (h ∷ fs))) (some (length pre))
      ≡ ok (batch n (pre' ++ hosted h fs), some (length pre'))
unfolding get next_cmd get_at
get-next n pre f h fs g k e =
    let pre' : Bytes = pre ++ (host_bytes f.type ++ (host_bytes (length f.value) ++ f.value)) in
    let mem : pre ++ hosted f (h ∷ fs) ≡ pre' ++ encode (h ∷ fs) = simp append_assoc in
    let at : length pre + 4 + length f.value ≡ length pre' =
      omega (
        arith,
        length-append pre (host_bytes f.type ++ (host_bytes (length f.value) ++ f.value)),
      ) in
    rw (
      load-hosted_length pre f (h ∷ fs) g,
      lt→leb_false n (length pre + 4 + length f.value) (
          omega (
            arith,
            length-append pre (hosted f (h ∷ fs)),
            length-append f.value (encode (h ∷ fs)),
          )),
      mem,
      at,
      to_host-encode n pre' h fs k,
    )

-- The first command of a batch of frames.
get-first :
    (f : Frame) (fs : List Frame)
    → IsFrame f
    → get (batch_of (f ∷ fs)) none ≡ ok (batch (length (encode (f ∷ fs))) (hosted f fs), some 0)
unfolding get next_cmd get_at
get-first f fs g = rw (to_host-encode (length (encode (f ∷ fs))) [] f fs g)

-- A frame takes four bytes at least.
pub length-encode : (fs : List Frame) → length fs ≤ length (encode fs)
length-encode [] = omega arith
length-encode (f ∷ fs) = omega (arith, length-append f.value (encode fs), length-encode fs)

module _ {S : Type 0} (body : Cmd → S → Exec (S × Bool)) where
  -- A round of the loop with the cursor at a frame.
  while_cmd-views :
      (fs : List Frame) (f : Frame) (fuel n : ℕ) (pre : Bytes) (s : S)
      → AllFrames (f ∷ fs)
      → length fs + 1 < fuel
      → n ≡ length (pre ++ hosted f fs)
      → while_cmd body fuel (batch n (pre ++ hosted f fs)) (some (length pre)) s
        ≡ run_body body (views (f ∷ fs)) s
  unfolding while_cmd run_body
  while_cmd-views fs f zero n pre s all enough e = absurd (omega arith)
  while_cmd-views [] f (suc zero) n pre s all enough e = absurd (omega arith)
  while_cmd-views [] f (suc (suc fuel)) n pre s all enough e =
      rw (view-hosted n pre f [] all.0) (bind_cong (body _ s) (λ r. last r.0 r.1))
    where
      last :
          (s' : S) (leave : Bool)
          → ◌≡◌ {A = Exec S}
              (elim leave [
                | true ↦ ok s'
                | false ↦ get (batch n (pre ++ hosted f [])) (some (length pre)) >>= λ (b', cmd).
                    while_cmd body (suc fuel) b' cmd s'
              ])
              (elim leave [ true ↦ ok s' | false ↦ ok s' ])
      last s' true = refl
      last s' false = rw (get-last n pre f all.0 e)
  while_cmd-views (h ∷ fs) f (suc fuel) n pre s all enough e =
      rw (view-hosted n pre f (h ∷ fs) all.0) (
        bind_cong (body _ s)
          (λ r. more r.0 r.1 (while_cmd-views fs h fuel n pre' r.0 all.1 (omega arith) (e ∙ same))))
    where
      pre' : Bytes
      pre' = pre ++ (host_bytes f.type ++ (host_bytes (length f.value) ++ f.value))

      same : length (pre ++ hosted f (h ∷ fs)) ≡ length (pre' ++ hosted h fs)
      same = omega (
        arith,
        length-append pre (hosted f (h ∷ fs)),
        length-append f.value (encode (h ∷ fs)),
        length-append pre (host_bytes f.type ++ (host_bytes (length f.value) ++ f.value)),
        length-append pre' (hosted h fs),
      )

      more :
          (s' : S) (leave : Bool)
          → while_cmd body fuel (batch n (pre' ++ hosted h fs)) (some (length pre')) s'
            ≡ run_body body (views (h ∷ fs)) s'
          → ◌≡◌ {A = Exec S}
              (elim leave [
                | true ↦ ok s'
                | false ↦
                    get (batch n (pre ++ hosted f (h ∷ fs))) (some (length pre)) >>= λ (b', cmd).
                    while_cmd body fuel b' cmd s'
              ])
              (elim leave [ true ↦ ok s' | false ↦ run_body body (views (h ∷ fs)) s' ])
      more s' true ih = refl
      more s' false ih = rw (get-next n pre f h fs all.0 all.1.0 e) ih

  -- A reader's loop over a batch of one frame or more, with types and lengths that fit 16 bits,
  -- runs its body on each frame, until the body leaves: it reads nothing outside the block and its
  -- fuel is enough.
  pub for_each_cmd-views :
      (f : Frame) (fs : List Frame) (s : S)
      → AllFrames (f ∷ fs)
      → for_each_cmd body (batch_of (f ∷ fs)) s ≡ run_body body (views (f ∷ fs)) s
  unfolding for_each_cmd
  for_each_cmd-views f fs s all = rw (get-first f fs all.0) (
      while_cmd-views fs f (length (encode (f ∷ fs)) + 1) (length (encode (f ∷ fs))) [] s all
        (omega (arith, length-append f.value (encode fs), length-encode fs)) refl)
