-- ===== src/Command.antt =====
-- atlas_client/src/commands/atlas_command.c: a batch of type-length-value commands in one block.
-- A pointer to a batch is an `Option`, `none` for NULL; a pointer into the block of a batch is an
-- offset. A batch grows by `add`, or is set from received bytes by `set_raw`; `get` walks over it
-- and turns each header to host order in place.
pub mod Types
pub mod Frame
pub mod Build
pub mod Walk
pub mod Accept
pub mod Sender
use resfit.Prelude.{
  ℕ, zero, suc, ◌+◌, ◌-◌, ◌*◌, ◌≡◌, Bool, true, false, Option, none, some, List, [], ◌∷◌, ◌++◌,
  length, drop, ltb, leb, ◌==◌, if◌then◌else◌, Exec, ok, ub, spent, ◌>>=◌,
}
use resfit.Prelude.Memory.{
  Bytes, u16, htons, ntohs, host_bytes, host_u16, read_at, write_at, load_u16, realloc,
}
use resfit.Status.{Status}

pub record CmdBatch : Type 0 where
  -- Internal buffer length, a uint16_t
  pub len : ℕ
  -- Internal buffer, none for NULL
  pub buf : Option Bytes

-- `atlas_cmd_batch_new`
abbrev pub new : CmdBatch
new = record { len = 0; buf = none }

-- The block that a pointer leads to; NULL leads to none.
abbrev pub block : Option Bytes → Bytes
block none = []
block (some mem) = mem

-- The body of `atlas_cmd_batch_add`, with its copy of `length` bytes from `value`.
pub append_cmd : CmdBatch → (type length : ℕ) → (value : Bytes) → Exec CmdBatch
append_cmd b type length value = do
  let new_len = u16 (b.len + 4 + length)
  v ← read_at value 0 length
  m ← write_at (realloc (block b.buf) new_len) (b.len + 4) v
  m ← write_at m b.len (host_bytes (htons type))
  m ← write_at m (b.len + 2) (host_bytes (htons length))
  ok (record { len = new_len; buf = some m })

-- `atlas_cmd_batch_add`
pub add : Option CmdBatch → (type length : ℕ) → (value : Bytes) → Exec (Option CmdBatch)
add none type length value = ok none
add (some b) type length value = do b' ← append_cmd b type length value; ok (some b')

-- `atlas_cmd_batch_get_buf`; `none` where it leaves `*buf` and `*len` alone
pub get_buf : Option CmdBatch → Option (Option Bytes × ℕ)
get_buf none = none
get_buf (some b) = some (b.buf, b.len)

-- What a sender hands on: the `len` bytes from `buf`, as `atlas_cmd_batch_get_buf` gives them.
pub sent_bytes : Option CmdBatch → Exec Bytes
unfolding get_buf
sent_bytes b = elim (get_buf b) [ none ↦ ok [] | some (buf, len) ↦ read_at (block buf) 0 len ]

-- The loop of `atlas_cmd_batch_set_raw` that validates the buffer, from `p` on, with `tmp_len`
-- bytes left; true if the buffer is well formed.
pub validate : ℕ → Bytes → (tmp_len : ℕ) → Exec Bool
validate zero p tmp_len = spent
validate (suc fuel) p tmp_len = elim (tmp_len == 0) [
  | true ↦ ok true
  | false ↦ if ltb tmp_len 2 then ok false else if ltb (tmp_len - 2) 2 then ok false else (do
    cmd_len ← load_u16 p 2
    elim (ltb (tmp_len - 4) (ntohs cmd_len)) [
      | true ↦ ok false
      | false ↦ validate fuel (drop (4 + ntohs cmd_len) p) (tmp_len - 4 - ntohs cmd_len)
    ])
]

-- The end of `atlas_cmd_batch_set_raw`: the copy of a valid buffer.
abbrev pub store_raw : CmdBatch → Bytes → ℕ → Bool → Exec (CmdBatch × Status)
store_raw b buf len false = ok (b, Status.corrupted_command)
store_raw b buf len true = do
  m ← read_at buf 0 len
  ok (record { len = len; buf = some m }, Status.ok)

-- `atlas_cmd_batch_set_raw` at a batch that is not NULL
pub set_raw : CmdBatch → (buf : Option Bytes) → (len : ℕ) → Exec (CmdBatch × Status)
unfolding validate
set_raw b none len = ok (b, Status.invalid_input)
set_raw b (some buf) len =
    if len == 0
    then ok (b, Status.invalid_input)
    else do valid ← validate (len + 1) buf len; store_raw b buf len valid

-- `ntohs` of the two fields of the command at `p`, in place.
pub to_host : CmdBatch → (p : ℕ) → Exec CmdBatch
to_host b p = do
  type ← load_u16 (block b.buf) p
  m ← write_at (block b.buf) p (host_bytes (ntohs type))
  length ← load_u16 m (p + 2)
  m ← write_at m (p + 2) (host_bytes (ntohs length))
  ok (record b { buf = some m })

-- The command behind the current one; the first one if there is none.
pub next_cmd : CmdBatch → (current_cmd : Option ℕ) → Exec (Option ℕ)
next_cmd b none = elim b.buf [ none ↦ ub | some _ ↦ ok (some 0) ]
next_cmd b (some p) = do
  length ← load_u16 (block b.buf) (p + 2)
  ok (if leb b.len (p + 4 + length) then none else some (p + 4 + length))

get_at : CmdBatch → Option ℕ → Exec (CmdBatch × Option ℕ)
unfolding to_host
get_at b none = ok (b, none)
get_at b (some p) = do b' ← to_host b p; ok (b', some p)

-- `atlas_cmd_batch_get` at a batch that is not NULL: the batch, whose block it changes, and the
-- pointer that it returns
pub get : CmdBatch → (current_cmd : Option ℕ) → Exec (CmdBatch × Option ℕ)
unfolding next_cmd get_at
get b current_cmd = do p ← next_cmd b current_cmd; get_at b p

-- What the holder of a command pointer can read: the two fields, and the block from `value` on.
pub record Cmd : Type 0 where
  pub type : ℕ
  pub length : ℕ
  pub value : Bytes

-- `*cmd`
pub view : CmdBatch → (p : ℕ) → Exec Cmd
view b p = do
  type ← load_u16 (block b.buf) p
  length ← load_u16 (block b.buf) (p + 2)
  ok (record { type = type; length = length; value = drop (p + 4) (block b.buf) })

-- `while (cmd) { body; cmd = atlas_cmd_batch_get(cmd_batch, cmd); }`: the loop that every reader
-- of a batch writes. The body returns its state and whether it leaves the loop.
module _ {S : Type 0} (body : Cmd → S → Exec (S × Bool)) where
  pub while_cmd : ℕ → CmdBatch → Option ℕ → S → Exec S
  while_cmd zero b cmd s = spent
  while_cmd (suc fuel) b none s = ok s
  while_cmd (suc fuel) b (some p) s = do
    c ← view b p
    (s', leave) ← body c s
    elim leave [ true ↦ ok s' | false ↦ get b (some p) >>= λ (b', cmd). while_cmd fuel b' cmd s' ]

  -- The reader's loop from `atlas_cmd_batch_get(cmd_batch, NULL)` on. A command takes four bytes
  -- at least, so the length of the block is enough fuel.
  pub for_each_cmd : CmdBatch → S → Exec S
  unfolding while_cmd
  for_each_cmd b s = get b none >>= λ (b', cmd). while_cmd (b.len + 1) b' cmd s
