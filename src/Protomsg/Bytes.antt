-- ===== src/Protomsg/Bytes.antt =====
-- Integers in memory and on the wire: the byte-order part of src/protomsg.c.
-- A byte is a number below 256. `hton` is the C library's htons and htonl (and ntohs and ntohl, which
-- are the same functions) for `n` bytes; the host's byte order is an argument everywhere.
pub mod Laws
pub mod Swap64
use netpro_project.Prelude.{
  ℕ, zero, suc, ◌+◌, ◌*◌, ◌/◌, ◌%◌, ◌^◌, ◌<◌, List, [], ◌∷◌, reverse, bit_or,
}

pub data Endian : Type 0 where
  little big : Endian

abbrev pub IsByte : ℕ → Type 0
IsByte b = b < 256

-- The low `n` bytes of `v`, least significant first, and the number that such bytes stand for.
unfoldable pub le_bytes : ℕ → ℕ → List ℕ
le_bytes zero v = []
le_bytes (suc n) v = (v % 256) ∷ le_bytes n (v / 256)

unfoldable pub le_value : List ℕ → ℕ
le_value [] = 0
le_value (b ∷ bs) = b + 256 * le_value bs

-- Network byte order.
abbrev pub be_bytes : ℕ → ℕ → List ℕ
be_bytes n v = reverse (le_bytes n v)

-- How the host keeps an `n`-byte integer in memory, and how it reads one back.
abbrev pub memory : Endian → ℕ → ℕ → List ℕ
memory little n v = le_bytes n v
memory big n v = be_bytes n v

abbrev pub load : Endian → List ℕ → ℕ
load little bs = le_value bs
load big bs = le_value (reverse bs)

-- The identity on a big-endian host, a byte swap on a little-endian one.
unfoldable pub hton : Endian → ℕ → ℕ → ℕ
hton little n v = le_value (be_bytes n v)
hton big n v = v

-- `v & 0xffffffff` cast to uint32_t, and `v >> 32` cast to uint32_t.
abbrev pub low32 : ℕ → ℕ
low32 v = v % 2 ^ 32

abbrev pub high32 : ℕ → ℕ
high32 v = v / 2 ^ 32 % 2 ^ 32

-- Used for both directions: htonll and ntohll only call it.
unfoldable pub swap64 : Endian → ℕ → ℕ
swap64 e v = bit_or (hton e 4 (low32 v) * 2 ^ 32 % 2 ^ 64) (hton e 4 (high32 v))

unfoldable pub htonll : Endian → ℕ → ℕ
unfolding swap64
htonll e v = swap64 e v

unfoldable pub ntohll : Endian → ℕ → ℕ
unfolding swap64
ntohll e v = swap64 e v
