-- ===== src/Command/Frame.antt =====
-- What the bytes of a command batch stand for: frames of a type and a value, written one behind
-- the other as type, length (both in network order) and value.
use resfit.Prelude.{ℕ, ◌<◌, ◌≡◌, refl, List, [], ◌∷◌, ◌++◌, append_assoc, length, some}
use resfit.Prelude.Memory.{Bytes, be16}
use resfit.Command.{CmdBatch, new}

pub record Frame : Type 0 where
  pub type : ℕ
  pub value : Bytes

abbrev pub frame : ℕ → Bytes → Frame
frame type value = record { type = type; value = value }

-- Both fields fit 16 bits.
pub record IsFrame (f : Frame) : Type 0 where
  pub type_fits : f.type < 65536
  pub value_fits : length f.value < 65536

abbrev pub AllFrames : List Frame → Type 0
AllFrames [] = Unit {0}
AllFrames (f ∷ fs) = IsFrame f × AllFrames fs

-- The bytes of a list of frames.
abbrev pub encode : List Frame → Bytes
encode [] = []
encode (f ∷ fs) = be16 f.type ++ (be16 (length f.value) ++ (f.value ++ encode fs))

-- The bytes of one frame.
abbrev pub frame_bytes : Frame → Bytes
frame_bytes f = be16 f.type ++ (be16 (length f.value) ++ f.value)

pub encode-append : (fs gs : List Frame) → encode (fs ++ gs) ≡ encode fs ++ encode gs
encode-append [] gs = refl
encode-append (f ∷ fs) gs = simp (encode-append fs gs, append_assoc)

-- A batch whose block holds exactly the frames.
abbrev pub batch_of : List Frame → CmdBatch
batch_of [] = new
batch_of (f ∷ fs) = record { len = length (encode (f ∷ fs)); buf = some (encode (f ∷ fs)) }

pub AllFrames-append :
    (fs : List Frame) (f : Frame) → AllFrames fs → IsFrame f → AllFrames (fs ++ f ∷ [])
AllFrames-append [] f h g = (g, tt)
AllFrames-append (x ∷ fs) f h g = (h.0, AllFrames-append fs f h.1 g)
