-- ===== src/Gateway/Batch.antt =====
-- atlas_gateway/src/commands/AtlasCommandBatch.cpp and AtlasCommand.h: the gateway's own batch of
-- commands, written into a buffer that is sized first, and parsed as far as the commands are whole.
pub mod Writing
pub mod Parsing
pub mod Agreement
use resfit.Prelude.{
  ℕ, zero, suc, ◌+◌, ◌-◌, Bool, true, false, Option, none, some, List, [], ◌∷◌, ◌++◌, length, drop,
  replicate, ltb, ◌==◌, if◌then◌else◌, Exec, ok, spent, ◌>>=◌,
}
use resfit.Prelude.Memory.{Bytes, u16, host_bytes, htons, ntohs, read_at, write_at, load_u16}

-- A command refers to its value by a pointer, NULL for none.
pub record AtlasCommand : Type 0 where
  pub type : ℕ
  pub len : ℕ
  pub val : Option Bytes

-- The constructor takes its numbers as uint16_t.
abbrev pub atlas_command : (type len : ℕ) → Option Bytes → AtlasCommand
atlas_command type len val = record { type = u16 type; len = u16 len; val = val }

-- The commands to send, and those that were parsed.
pub record AtlasCommandBatch : Type 0 where
  pub added_cmd : List AtlasCommand
  pub parsed_cmd : List AtlasCommand

abbrev pub no_commands : AtlasCommandBatch
no_commands = record { added_cmd = []; parsed_cmd = [] }

pub add_command : AtlasCommandBatch → AtlasCommand → AtlasCommandBatch
add_command b cmd = record b { added_cmd = b.added_cmd ++ cmd ∷ [] }

-- The size of the buffer.
pub total_len : List AtlasCommand → ℕ
total_len [] = 0
total_len (cmd ∷ cmds) = 4 + cmd.len + total_len cmds

-- `memcpy (ptr, val, len)`, if there is a value.
pub put_value : (buf : Bytes) (ptr : ℕ) → AtlasCommand → Exec Bytes
put_value buf ptr cmd = elim cmd.val [
  | none ↦ ok buf
  | some v ↦ (do bytes ← read_at v 0 cmd.len; write_at buf ptr bytes)
]

pub put_command : (buf : Bytes) (ptr : ℕ) → AtlasCommand → Exec Bytes
unfolding put_value
put_command buf ptr cmd = do
  buf ← write_at buf ptr (host_bytes (htons cmd.type))
  buf ← write_at buf (ptr + 2) (host_bytes (htons cmd.len))
  put_value buf (ptr + 4) cmd

-- The loop of `getSerializedAddedCommands`.
pub put_commands : (buf : Bytes) (ptr : ℕ) → List AtlasCommand → Exec Bytes
unfolding put_command
put_commands buf ptr [] = ok buf
put_commands buf ptr (cmd ∷ cmds) =
    put_command buf ptr cmd >>= λ buf. put_commands buf (ptr + 4 + cmd.len) cmds

abbrev serialized : List AtlasCommand → Exec (Option Bytes)
serialized [] = ok none
serialized (cmd ∷ cmds) =
    put_commands (replicate (total_len (cmd ∷ cmds)) 0) 0 (cmd ∷ cmds) >>= λ buf. ok (some buf)

-- `getSerializedAddedCommands`: NULL, or a buffer, whose size is the length that it returns
unfoldable pub get_serialized_added_commands : AtlasCommandBatch → Exec (Option Bytes)
unfolding put_commands total_len
get_serialized_added_commands b = serialized b.added_cmd

-- `parseCommands`, from `ptr` on, with `cmd_len` bytes left: it returns at the first command that
-- is not whole, and keeps those in front of it.
pub parse_commands : ℕ → (ptr : Bytes) → (cmd_len : ℕ) → Exec (List AtlasCommand)
parse_commands zero ptr cmd_len = spent
parse_commands (suc fuel) ptr cmd_len = elim (cmd_len == 0) [
  | true ↦ ok []
  | false ↦ if ltb cmd_len 2 then ok [] else (do
    type ← load_u16 ptr 0
    if ltb (cmd_len - 2) 2 then ok [] else (do
      len ← load_u16 ptr 2
      elim (ltb (cmd_len - 4) (ntohs len)) [
        | true ↦ ok []
        | false ↦ (do
          val ← read_at ptr 4 (ntohs len)
          cmds ← parse_commands fuel (drop (4 + ntohs len) ptr) (cmd_len - 4 - ntohs len)
          ok (atlas_command (ntohs type) (ntohs len) (some val) ∷ cmds))
      ]))
]

-- `setRawCommands`: nothing happens at NULL or at no bytes
pub set_raw_commands : AtlasCommandBatch → Option Bytes → (cmd_len : ℕ) → Exec AtlasCommandBatch
unfolding parse_commands
set_raw_commands b none cmd_len = ok b
set_raw_commands b (some cmd) cmd_len = if cmd_len == 0 then ok b else (do
  buf ← read_at cmd 0 cmd_len
  cmds ← parse_commands (cmd_len + 1) buf cmd_len
  ok (record b { parsed_cmd = cmds }))

-- What every receiver does: a new batch, `setRawCommands`, `getParsedCommands`.
unfoldable pub received_commands : Option Bytes → (cmd_len : ℕ) → Exec (List AtlasCommand)
unfolding set_raw_commands
received_commands cmd cmd_len = set_raw_commands no_commands cmd cmd_len >>= λ b. ok b.parsed_cmd

-- What every sender does: a new batch, `addCommand` for each command, and
-- `getSerializedAddedCommands`.
pub add_commands : AtlasCommandBatch → List AtlasCommand → AtlasCommandBatch
unfolding add_command
add_commands b [] = b
add_commands b (cmd ∷ cmds) = add_commands (add_command b cmd) cmds

unfoldable pub serialized_commands : List AtlasCommand → Exec (Option Bytes)
unfolding add_commands get_serialized_added_commands
serialized_commands cmds = get_serialized_added_commands (add_commands no_commands cmds)

-- A command around commands, as the two sides of the plug-in's socket write them: a batch inside,
-- and a batch with one command whose value are its bytes.
abbrev pub size_of : Option Bytes → ℕ
size_of none = 0
size_of (some bytes) = length bytes

unfoldable pub nested_command : (type : ℕ) → List AtlasCommand → Exec (Option Bytes)
unfolding serialized_commands
nested_command type cmds = do
  inner_cmd ← serialized_commands cmds
  serialized_commands (atlas_command type (size_of inner_cmd) inner_cmd ∷ [])
