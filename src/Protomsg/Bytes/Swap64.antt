-- ===== src/Protomsg/Bytes/Swap64.antt =====
-- htonll and ntohll: right on a little-endian host, and with the halves exchanged on a big-endian one.
use netpro_project.Prelude.{ℕ, ◌+◌, ◌*◌, ◌^◌, ◌%◌, ◌<◌, ◌≡◌, sym, ap, ◌∙◌, ◌++◌, reverse, arith}
use netpro_project.Prelude.Bits.{bit_or-disjoint}
use netpro_project.Protomsg.Bytes.{
  Endian, little, big, le_bytes, be_bytes, memory, load, hton, low32, high32, swap64, htonll,
  ntohll,
}
use netpro_project.Protomsg.Bytes.Laws.{le_bytes-add, hton-lt, memory-hton, load-memory, hton-hton}
use mathlib.Core.Path.{ap₂}
use mathlib.Core.List.{reverse-append}

-- The two halves do not overlap, so `|` adds them and the shift loses nothing.
pub swap64_sum :
    (e : Endian) (v : ℕ) → swap64 e v ≡ hton e 4 (low32 v) * 2 ^ 32 + hton e 4 (high32 v)
unfolding swap64
swap64_sum e v =
    let h : hton e 4 (low32 v) < 2 ^ 32 = hton-lt e 4 (low32 v) (omega arith) in
    let k : hton e 4 (high32 v) < 2 ^ 32 = hton-lt e 4 (high32 v) (omega arith) in
    let whole : hton e 4 (low32 v) * 2 ^ 32 % 2 ^ 64 ≡ hton e 4 (low32 v) * 2 ^ 32 = omega arith in
    rw whole (bit_or-disjoint 32 (hton e 4 (low32 v)) (hton e 4 (high32 v)) k)

pub swap64-lt : (e : Endian) (v : ℕ) → swap64 e v < 2 ^ 64
swap64-lt e v =
    let h : hton e 4 (low32 v) < 2 ^ 32 = hton-lt e 4 (low32 v) (omega arith) in
    let k : hton e 4 (high32 v) < 2 ^ 32 = hton-lt e 4 (high32 v) (omega arith) in
    omega (arith, swap64_sum e v)

halves : (v : ℕ) → v < 2 ^ 64 → high32 v * 256 ^ 4 + low32 v ≡ v
halves v h = omega arith

le_bytes-halves :
    (lo hi : ℕ) → lo < 2 ^ 32 → le_bytes 8 (hi * 2 ^ 32 + lo) ≡ le_bytes 4 lo ++ le_bytes 4 hi
le_bytes-halves lo hi h = le_bytes-add 4 4 lo hi h

be_bytes-halves :
    (v : ℕ) → v < 2 ^ 64 → be_bytes 8 v ≡ be_bytes 4 (high32 v) ++ be_bytes 4 (low32 v)
be_bytes-halves v h =
    ap (be_bytes 8) (sym (halves v h))
    ∙ ap reverse (le_bytes-halves (low32 v) (high32 v) (omega arith))
    ∙ reverse-append (le_bytes 4 (low32 v)) (le_bytes 4 (high32 v))

-- On a little-endian host the stored result of htonll is the 64-bit value in network order.
pub memory-htonll : (v : ℕ) → v < 2 ^ 64 → memory little 8 (htonll little v) ≡ be_bytes 8 v
unfolding htonll
memory-htonll v h =
    ap (le_bytes 8) (swap64_sum little v)
    ∙ le_bytes-halves (hton little 4 (high32 v)) (hton little 4 (low32 v))
        (hton-lt little 4 (high32 v) (omega arith))
    ∙ ap₂ ◌++◌ (memory-hton little 4 (high32 v)) (memory-hton little 4 (low32 v))
    ∙ sym (be_bytes-halves v h)

-- On a big-endian host the two 32-bit halves are written in the wrong order.
pub memory-htonll_big :
    (v : ℕ) → memory big 8 (htonll big v) ≡ be_bytes 4 (low32 v) ++ be_bytes 4 (high32 v)
unfolding htonll hton
memory-htonll_big v =
    ap (be_bytes 8) (swap64_sum big v)
    ∙ ap reverse (le_bytes-halves (high32 v) (low32 v) (omega arith))
    ∙ reverse-append (le_bytes 4 (high32 v)) (le_bytes 4 (low32 v))

-- ntohll undoes htonll on every host.
pub ntohll-htonll : (e : Endian) (v : ℕ) → v < 2 ^ 64 → ntohll e (htonll e v) ≡ v
unfolding ntohll htonll
ntohll-htonll e v h =
    let s = swap64_sum e v in
    let lo : hton e 4 (low32 v) < 2 ^ 32 = hton-lt e 4 (low32 v) (omega arith) in
    let hi : hton e 4 (high32 v) < 2 ^ 32 = hton-lt e 4 (high32 v) (omega arith) in
    let low : low32 (swap64 e v) ≡ hton e 4 (high32 v) = omega arith in
    let high : high32 (swap64 e v) ≡ hton e 4 (low32 v) = omega arith in
    let back : hton e 4 (hton e 4 (low32 v)) ≡ low32 v = hton-hton e 4 (low32 v) (omega arith) in
    let back' : hton e 4 (hton e 4 (high32 v)) ≡ high32 v =
      hton-hton e 4 (high32 v) (omega arith) in
    swap64_sum e (swap64 e v) ∙ rw (low, high, back, back') (omega arith)

-- What a host reads back of a 64-bit field that a host of the same byte order wrote.
pub ntohll-load :
    (e : Endian) (v : ℕ) → v < 2 ^ 64 → ntohll e (load e (memory e 8 (htonll e v))) ≡ v
ntohll-load e v h =
    ap (ntohll e) (load-memory e 8 (htonll e v) (unfold htonll in swap64-lt e v))
    ∙ ntohll-htonll e v h

-- A 64-bit field written on a big-endian host is read on a little-endian one with the halves of the
-- number exchanged.
pub ntohll-mixed :
    (v : ℕ)
    → v < 2 ^ 64
    → ntohll little (load little (memory big 8 (htonll big v))) ≡ low32 v * 2 ^ 32 + high32 v
ntohll-mixed v h =
    let w = low32 v * 2 ^ 32 + high32 v in
    let fits : w < 2 ^ 64 = omega arith in
    let high : high32 w ≡ low32 v = omega arith in
    let low : low32 w ≡ high32 v = omega arith in
    let bytes : memory big 8 (htonll big v) ≡ be_bytes 8 w =
      memory-htonll_big v ∙ sym (be_bytes-halves w fits ∙ rw (high, low)) in
    ap (λ bs. ntohll little (load little bs)) (bytes ∙ sym (memory-htonll w fits))
    ∙ ntohll-load little w fits
