-- ===== src/Gateway/Transfer.antt =====
-- atlas_gateway/src/commands/AtlasCommandXfer.cpp and the reads of AtlasFilter.cpp and
-- AtlasPubSubAgent.cpp: commands that arrive over a stream in pieces of any size.
pub mod Framing
pub mod Streams
pub mod Delivery
use resfit.Prelude.{
  ℕ, ◌+◌, ◌-◌, ◌%◌, Bool, true, false, Option, none, some, List, [], ◌∷◌, length, take, drop,
  replicate, ltb, ◌==◌, if◌then◌else◌, Exec, ok, ◌>>=◌,
}
use resfit.Prelude.Memory.{Bytes, ntohs, read_at, write_at, load_u16}

pub data XferState : Type 0 where
  header : XferState
  payload : XferState

pub record AtlasCommandXfer : Type 0 where
  pub buf : Bytes
  pub state : XferState
  pub cmd_len : ℕ
  pub cmd_remaining_len : ℕ

-- ATLAS_PUB_SUB_AGENT_BUF_LEN and ATLAS_CMD_HEADER_LEN
abbrev pub agent_buf_len : ℕ
agent_buf_len = 8192

abbrev pub cmd_header_len : ℕ
cmd_header_len = 4

-- Numbers of type size_t.
abbrev pub size_mod : ℕ
size_mod = 18446744073709551616

-- `init`, which keeps the buffer
abbrev pub init : AtlasCommandXfer → AtlasCommandXfer
init x = record x { state = header; cmd_len = 0; cmd_remaining_len = cmd_header_len }

-- The header state is left when the header is there.
pub after_header : XferState → AtlasCommandXfer → Exec AtlasCommandXfer
after_header header x =
    if x.cmd_remaining_len == 0
    then (do
      len ← load_u16 x.buf 2
      ok (record x { cmd_remaining_len = ntohs len; state = payload }))
    else ok x
after_header payload x = ok x

pub handle_arrived_data : AtlasCommandXfer → (bytes_transferred : ℕ) → Exec AtlasCommandXfer
unfolding after_header
handle_arrived_data x bytes_transferred = after_header x.state (record x {
  cmd_remaining_len = (x.cmd_remaining_len + size_mod - bytes_transferred) % size_mod;
  cmd_len = (x.cmd_len + bytes_transferred) % size_mod;
})

abbrev pub is_payload : XferState → Bool
is_payload header = false
is_payload payload = true

abbrev pub is_cmd_available : AtlasCommandXfer → Bool
is_cmd_available x = if is_payload x.state then x.cmd_remaining_len == 0 else false

-- The rest of `handleRead`: the bytes that are handed to `processCommand`, if there are any.
abbrev pub available : Bool → AtlasCommandXfer → Exec (AtlasCommandXfer × Option Bytes)
available false x = ok (x, none)
available true x = do cmd ← read_at x.buf 0 x.cmd_len; ok (init x, some cmd)

-- `handleRead` without an error: the bytes were read to the end of those that are there
pub handle_read : AtlasCommandXfer → (arrived : Bytes) → Exec (AtlasCommandXfer × Option Bytes)
unfolding handle_arrived_data
handle_read x arrived = do
  buf ← write_at x.buf x.cmd_len arrived
  x ← handle_arrived_data (record x { buf = buf }) (length arrived)
  available (is_cmd_available x) x

abbrev pub smaller : ℕ → ℕ → ℕ
smaller a b = if ltb a b then a else b

abbrev pub read_some : AtlasCommandXfer → (ready : ℕ) → Bytes → Bytes
read_some x ready stream = take (smaller ready x.cmd_remaining_len) stream

abbrev pub then_some : Option Bytes → List Bytes → List Bytes
then_some none cmds = cmds
then_some (some cmd) cmds = cmd ∷ cmds

abbrev pub handed_on :
    Option Bytes
    → AtlasCommandXfer × List Bytes × Bytes
    → Exec (AtlasCommandXfer × List Bytes × Bytes)
handed_on cmd (x, cmds, rest) = ok (x, then_some cmd cmds, rest)

-- The reads of a connection: each takes no more than is ready and than was asked for, and asks for
-- the bytes that are still missing. The result has the commands handed on and the unread bytes.
pub read_stream :
    AtlasCommandXfer → (ready : List ℕ) → Bytes → Exec (AtlasCommandXfer × List Bytes × Bytes)
unfolding handle_read
read_stream x [] stream = ok (x, [], stream)
read_stream x (n ∷ ready) stream = handle_read x (read_some x n stream) >>= λ p.
    read_stream p.0 ready (drop (length (read_some x n stream)) stream) >>= handed_on p.1
