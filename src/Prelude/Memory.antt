-- ===== src/Prelude/Memory.antt =====
-- Bytes in memory: blocks with a size, reads and writes that are undefined outside the block, and
-- 16-bit words on a little-endian host.
use resfit.Prelude.{
  ℕ, suc, ◌+◌, ◌-◌, ◌*◌, ◌/◌, ◌%◌, ◌≤◌, ◌<◌, ◌≡◌, ap, List, [], ◌∷◌, ◌++◌, append_assoc, arith,
  length, take, drop, replicate, take-append, drop-append, length-append, leb, le→leb, Exec, ok, ub,
  ◌>>=◌, checked, take_past, take-length, zero, lt→leb_false,
}

abbrev pub Bytes : Type 0
Bytes = List ℕ

-- Every number of the list fits eight bits.
abbrev pub AllBytes : Bytes → Type 0
AllBytes [] = Unit {0}
AllBytes (b ∷ bs) = (b < 256) × AllBytes bs

-- The conversion to uint16_t.
abbrev pub u16 : ℕ → ℕ
u16 n = n % 65536

-- `htons` and `ntohs` of a little-endian host.
abbrev pub htons : ℕ → ℕ
htons x = x % 256 * 256 + x / 256 % 256

abbrev pub ntohs : ℕ → ℕ
ntohs = htons

-- The bytes of a uint16_t as they lie in memory, and back.
abbrev pub host_bytes : ℕ → Bytes
host_bytes x = x % 256 ∷ x / 256 % 256 ∷ []

abbrev pub host_u16 : Bytes → Exec ℕ
host_u16 (a ∷ b ∷ []) = ok (a + b * 256)
host_u16 _ = ub

-- The big-endian bytes of a 16-bit word, as they travel.
abbrev pub be16 : ℕ → Bytes
be16 x = x / 256 % 256 ∷ x % 256 ∷ []

-- `n` bytes at offset `off` of a block.
pub read_at : Bytes → ℕ → ℕ → Exec Bytes
read_at mem off n = checked (leb (off + n) (length mem)) (take n (drop off mem))

-- `memcpy (mem + off, src, length src)`.
pub write_at : Bytes → ℕ → Bytes → Exec Bytes
write_at mem off src =
    checked (leb (off + length src) (length mem))
      (take off mem ++ (src ++ drop (off + length src) mem))

pub load_u16 : Bytes → ℕ → Exec ℕ
load_u16 mem off = do bs ← read_at mem off 2; host_u16 bs

-- `realloc (old, n)`: the old bytes, then new ones, which every caller writes before it reads.
pub realloc : Bytes → ℕ → Bytes
realloc old n = take n old ++ replicate (n - length old) 0

abbrev middle : Bytes → Bytes → Bytes → Bytes
middle pre mid post = pre ++ (mid ++ post)

length-middle : (pre mid post : Bytes) → length pre + length mid ≤ length (middle pre mid post)
length-middle pre mid post = omega (arith, length-append pre (mid ++ post), length-append mid post)

-- Reading back a part of a block.
pub read_at-append :
    (pre mid post : Bytes) → read_at (pre ++ (mid ++ post)) (length pre) (length mid) ≡ ok mid
unfolding read_at
read_at-append pre mid post =
    rw
      (le→leb _ _ (length-middle pre mid post), drop-append pre (mid ++ post), take-append mid post)

-- Writing over a part of a block of the same size.
pub write_at-append :
    (pre mid post src : Bytes)
    → length src ≡ length mid
    → write_at (pre ++ (mid ++ post)) (length pre) src ≡ ok (pre ++ (src ++ post))
unfolding write_at
write_at-append pre mid post src same = rw (
  same,
  le→leb _ _ (length-middle pre mid post),
  take-append pre (mid ++ post),
  ← length-append pre mid,
  ← append_assoc pre mid post,
  drop-append (pre ++ mid) post,
)

-- A word in host order is read back.
pub load_u16-host_bytes :
    (pre post : Bytes) (x : ℕ)
    → x < 65536
    → load_u16 (pre ++ (host_bytes x ++ post)) (length pre) ≡ ok x
unfolding load_u16
load_u16-host_bytes pre post x h = rw (read_at-append pre (host_bytes x) post) (ap ok (omega arith))

-- A word in network order is read as its swap.
pub load_u16-be16 :
    (pre post : Bytes) (x : ℕ)
    → x < 65536
    → load_u16 (pre ++ (be16 x ++ post)) (length pre) ≡ ok (htons x)
unfolding load_u16
load_u16-be16 pre post x h = rw (read_at-append pre (be16 x) post) (ap ok (omega arith))

-- The bytes that `htons` puts into memory are the word in network order.
pub host_bytes-htons : (x : ℕ) → x < 65536 → host_bytes (htons x) ≡ be16 x
host_bytes-htons x h = ground arith

pub ntohs-htons : (x : ℕ) → x < 65536 → ntohs (htons x) ≡ x
ntohs-htons x h = omega arith

pub htons-lt : (x : ℕ) → htons x < 65536
htons-lt x = omega arith

take_past-append : (old : Bytes) (n : ℕ) → take (length old + n) old ≡ old
take_past-append old n = take_past (length old + n) old (omega arith)

-- Growing a block keeps its bytes.
pub realloc-append : (old : Bytes) (n : ℕ) → realloc old (length old + n) ≡ old ++ replicate n 0
unfolding realloc
realloc-append old n = rw (take_past-append old n) (ap (λ k. old ++ replicate k 0) (omega arith))

-- `write_at-append` for a block and an offset that are given in another form.
pub write_at_over :
    {mem : Bytes} {off : ℕ} (pre mid post src : Bytes)
    → mem ≡ pre ++ (mid ++ post)
    → off ≡ length pre
    → length src ≡ length mid
    → write_at mem off src ≡ ok (pre ++ (src ++ post))
write_at_over pre mid post src m o same = rw (m, o) (write_at-append pre mid post src same)

pub load_u16_over :
    {mem : Bytes} {off : ℕ} (pre post : Bytes) (x : ℕ)
    → mem ≡ pre ++ (host_bytes x ++ post)
    → off ≡ length pre
    → x < 65536
    → load_u16 mem off ≡ ok x
load_u16_over pre post x m o h = rw (m, o) (load_u16-host_bytes pre post x h)

pub load_u16-be16_over :
    {mem : Bytes} {off : ℕ} (pre post : Bytes) (x : ℕ)
    → mem ≡ pre ++ (be16 x ++ post)
    → off ≡ length pre
    → x < 65536
    → load_u16 mem off ≡ ok (htons x)
load_u16-be16_over pre post x m o h = rw (m, o) (load_u16-be16 pre post x h)

pub read_at_all : (mem : Bytes) → read_at mem 0 (length mem) ≡ ok mem
unfolding read_at
read_at_all mem = rw (take-length mem, le→leb (0 + length mem) (length mem) (omega arith))

-- The word at offset 2 of four bytes or more.
pub load_u16_at_two : (a b c d : ℕ) (p : Bytes) → load_u16 (a ∷ b ∷ c ∷ d ∷ p) 2 ≡ ok (c + d * 256)
unfolding load_u16 read_at
load_u16_at_two a b c d p = rw (le→leb (2 + 2) (length (a ∷ b ∷ c ∷ d ∷ p)) (omega arith))

pub take-AllBytes : (n : ℕ) (p : Bytes) → AllBytes p → AllBytes (take n p)
take-AllBytes zero p h = tt
take-AllBytes (suc n) [] h = tt
take-AllBytes (suc n) (x ∷ p) h = (h.0, take-AllBytes n p h.1)

pub drop-AllBytes : (n : ℕ) (p : Bytes) → AllBytes p → AllBytes (drop n p)
drop-AllBytes zero p h = h
drop-AllBytes (suc n) [] h = tt
drop-AllBytes (suc n) (x ∷ p) h = drop-AllBytes n p h.1

-- Two bytes are the network order of the word that `ntohs` makes of them.
pub be16-ntohs : (c d : ℕ) → c < 256 → d < 256 → be16 (ntohs (c + d * 256)) ≡ c ∷ d ∷ []
be16-ntohs c d hc hd = ground arith

-- A write that does not end inside the block is undefined.
pub write_at_outside :
    (mem : Bytes) (off : ℕ) (src : Bytes)
    → length mem < off + length src
    → write_at mem off src ≡ ub
unfolding write_at
write_at_outside mem off src h = rw (lt→leb_false (off + length src) (length mem) h)

-- The word at the start of two bytes or more.
pub load_u16_first : (a b : ℕ) (p : Bytes) → load_u16 (a ∷ b ∷ p) 0 ≡ ok (a + b * 256)
unfolding load_u16 read_at
load_u16_first a b p = rw (le→leb (0 + 2) (length (a ∷ b ∷ p)) (omega arith))

pub load_u16_short : (p : Bytes) → length p < 2 → load_u16 p 0 ≡ ub
unfolding load_u16 read_at
load_u16_short p h = rw (lt→leb_false (0 + 2) (length p) h)
