-- ===== src/Gateway/Values.antt =====
-- The values of commands as the gateway's receivers copy them, and 32-bit words in network order.
use resfit.Prelude.{
  ℕ, ◌+◌, ◌*◌, ◌/◌, ◌%◌, ◌<◌, ◌≡◌, ap, ◌∙◌, none, some, List, [], ◌∷◌, length, arith, Exec, ok, ub,
  ◌>>=◌,
}
use resfit.Prelude.Memory.{Bytes, be16, u16, ntohs, host_u16, read_at, read_at_all}
use resfit.Command.Frame.{Frame, frame, IsFrame}
use resfit.Gateway.Batch.{AtlasCommand}
use resfit.Gateway.Batch.Writing.{command_of}

-- `memcpy (&x, cmd.getVal (), n)`, and `assign (cmd.getVal (), cmd.getLen ())`.
unfoldable pub value_bytes : AtlasCommand → (n : ℕ) → Exec Bytes
value_bytes cmd n = elim cmd.val [ none ↦ ub | some v ↦ read_at v 0 n ]

unfoldable pub value_text : AtlasCommand → Exec Bytes
unfolding value_bytes
value_text cmd = value_bytes cmd cmd.len

unfoldable pub value_u16 : AtlasCommand → Exec ℕ
unfolding value_bytes
value_u16 cmd = do bytes ← value_bytes cmd 2; x ← host_u16 bytes; ok (ntohs x)

-- `htonl` and `ntohl` of a little-endian host, and the bytes of a uint32_t as they lie in memory.
abbrev pub htonl : ℕ → ℕ
htonl x = x % 256 * 16777216 + x / 256 % 256 * 65536 + x / 65536 % 256 * 256 + x / 16777216 % 256

abbrev pub host_bytes32 : ℕ → Bytes
host_bytes32 x = x % 256 ∷ x / 256 % 256 ∷ x / 65536 % 256 ∷ x / 16777216 % 256 ∷ []

abbrev pub host_u32 : Bytes → Exec ℕ
host_u32 (a ∷ b ∷ c ∷ d ∷ []) = ok (a + b * 256 + c * 65536 + d * 16777216)
host_u32 _ = ub

-- The big-endian bytes of a 32-bit word, as they travel.
abbrev pub be32 : ℕ → Bytes
be32 x = x / 16777216 % 256 ∷ x / 65536 % 256 ∷ x / 256 % 256 ∷ x % 256 ∷ []

unfoldable pub value_u32 : AtlasCommand → Exec ℕ
unfolding value_bytes
value_u32 cmd = do bytes ← value_bytes cmd 4; x ← host_u32 bytes; ok (htonl x)

pub host_bytes32-htonl : (x : ℕ) → x < 4294967296 → host_bytes32 (htonl x) ≡ be32 x
host_bytes32-htonl x h = ground arith

-- A loop over commands.
abbrev pub for_commands {ℓ} :
    {S : Type ℓ} → (S → AtlasCommand → Exec S) → S → List AtlasCommand → Exec S
for_commands body s [] = ok s
for_commands body s (cmd ∷ cmds) = body s cmd >>= λ s. for_commands body s cmds

pub value_text-command_of : (f : Frame) → IsFrame f → value_text (command_of f) ≡ ok f.value
unfolding value_text
value_text-command_of f all =
    ap (read_at f.value 0)
      (let e : u16 (length f.value) ≡ length f.value = omega (arith, all.value_fits) in e)
    ∙ read_at_all f.value

pub value_u16-be16 : (type n : ℕ) → n < 65536 → value_u16 (command_of (frame type (be16 n))) ≡ ok n
unfolding value_u16
value_u16-be16 type n h =
    ap (λ m. m >>= λ b. host_u16 b >>= λ x. ok (ntohs x)) (read_at_all (be16 n))
    ∙ ap ok (omega arith)

pub value_u32-be32 :
    (type n : ℕ) → n < 4294967296 → value_u32 (command_of (frame type (be32 n))) ≡ ok n
unfolding value_u32
value_u32-be32 type n h =
    ap (λ m. m >>= λ b. host_u32 b >>= λ x. ok (htonl x)) (read_at_all (be32 n))
    ∙ ap ok (omega arith)
