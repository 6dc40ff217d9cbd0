-- ===== src/Protomsg/Bytes/Laws.antt =====
-- Byte strings and the numbers they stand for, and the conversions to network order.
use netpro_project.Prelude.{
  ℕ, zero, suc, ◌+◌, ◌*◌, ◌/◌, ◌%◌, ◌^◌, ◌<◌, ◌≡◌, refl, sym, ap, ◌∙◌, List, [], ◌∷◌, ◌++◌, reverse,
  length, length-reverse, All, All-reverse, arith,
}
use netpro_project.Protomsg.Bytes.{
  Endian, little, big, IsByte, le_bytes, le_value, be_bytes, memory, load, hton,
}
use mathlib.Core.Path.{ap₂}
use mathlib.Core.List.{reverse-reverse}
use native.Mathlib.Nat.{pow-suc}

pub length-le_bytes : (n v : ℕ) → length (le_bytes n v) ≡ n
unfolding le_bytes
length-le_bytes zero v = refl
length-le_bytes (suc n) v = ap suc (length-le_bytes n (v / 256))

pub le_bytes-IsByte : (n v : ℕ) → All IsByte (le_bytes n v)
unfolding le_bytes
le_bytes-IsByte zero v = tt
le_bytes-IsByte (suc n) v = (omega arith, le_bytes-IsByte n (v / 256))

pub le_value-le_bytes : (n v : ℕ) → v < 256 ^ n → le_value (le_bytes n v) ≡ v
unfolding le_bytes le_value
le_value-le_bytes zero v h = omega arith
le_value-le_bytes (suc n) v h =
    omega (arith, le_value-le_bytes n (v / 256) (omega (arith, pow-suc 256 n)))

pub le_bytes-le_value : (bs : List ℕ) → All IsByte bs → le_bytes (length bs) (le_value bs) ≡ bs
unfolding le_bytes le_value
le_bytes-le_value [] h = refl
le_bytes-le_value (b ∷ bs) (hb, hbs) =
    let low : (b + 256 * le_value bs) % 256 ≡ b = omega arith in
    let rest : (b + 256 * le_value bs) / 256 ≡ le_value bs = omega arith in
    rw (low, rest) (ap {B = List ℕ} (λ t. b ∷ t) (le_bytes-le_value bs hbs))

pub le_value-lt : (bs : List ℕ) → All IsByte bs → le_value bs < 256 ^ length bs
unfolding le_value
le_value-lt [] h = omega arith
le_value-lt (b ∷ bs) (hb, hbs) = omega (arith, le_value-lt bs hbs, pow-suc 256 (length bs))

-- A number cut in two: the bytes of the low part come first.
pub le_bytes-add :
    (m n lo hi : ℕ)
    → lo < 256 ^ m
    → le_bytes (m + n) (hi * 256 ^ m + lo) ≡ le_bytes m lo ++ le_bytes n hi
unfolding le_bytes
le_bytes-add zero n lo hi h = ap₂ le_bytes (omega arith) (omega arith)
le_bytes-add (suc m) n lo hi h =
    let split : hi * 256 ^ suc m ≡ 256 * (hi * 256 ^ m) =
      omega (arith, ap (λ (t : ℕ). hi * t) (pow-suc 256 m)) in
    let more : suc m + n ≡ suc (m + n) = omega arith in
    let low : (hi * 256 ^ suc m + lo) % 256 ≡ lo % 256 = omega arith in
    let rest : (hi * 256 ^ suc m + lo) / 256 ≡ hi * 256 ^ m + lo / 256 = omega arith in
    rw more (
      rw (low, rest)
        (ap {B = List ℕ} (λ t. (lo % 256) ∷ t)
          (le_bytes-add m n (lo / 256) hi (omega (arith, pow-suc 256 m)))))

pub length-be_bytes : (n v : ℕ) → length (be_bytes n v) ≡ n
length-be_bytes n v = length-reverse (le_bytes n v) ∙ length-le_bytes n v

be_bytes-IsByte : (n v : ℕ) → All IsByte (be_bytes n v)
be_bytes-IsByte n v = All-reverse IsByte (le_bytes n v) (le_bytes-IsByte n v)

pub hton-lt : (e : Endian) (n v : ℕ) → v < 256 ^ n → hton e n v < 256 ^ n
unfolding hton
hton-lt little n v h =
    rw (length-be_bytes n v) at (le_value-lt (be_bytes n v) (be_bytes-IsByte n v))
hton-lt big n v h = h

-- Converting and storing gives the bytes in network order, on either host.
pub memory-hton : (e : Endian) (n v : ℕ) → memory e n (hton e n v) ≡ be_bytes n v
unfolding hton
memory-hton little n v =
    ap (λ k. le_bytes k (le_value (be_bytes n v))) (sym (length-be_bytes n v))
    ∙ le_bytes-le_value (be_bytes n v) (be_bytes-IsByte n v)
memory-hton big n v = refl

pub load-memory : (e : Endian) (n v : ℕ) → v < 256 ^ n → load e (memory e n v) ≡ v
load-memory little n v h = le_value-le_bytes n v h
load-memory big n v h = ap le_value (reverse-reverse (le_bytes n v)) ∙ le_value-le_bytes n v h

pub hton-hton : (e : Endian) (n v : ℕ) → v < 256 ^ n → hton e n (hton e n v) ≡ v
hton-hton little n v h =
    unfold hton in ap (λ bs. le_value (reverse bs)) (memory-hton little n v) ∙ load-memory big n v h
hton-hton big n v h = unfold hton in refl

-- What a receiver of either byte order makes of the bytes in network order.
pub ntoh-be_bytes : (e : Endian) (n v : ℕ) → v < 256 ^ n → hton e n (load e (be_bytes n v)) ≡ v
ntoh-be_bytes e n v h =
    ap (λ bs. hton e n (load e bs)) (sym (memory-hton e n v))
    ∙ ap (hton e n) (load-memory e n (hton e n v) (hton-lt e n v h))
    ∙ hton-hton e n v h

pub length-memory : (e : Endian) (n v : ℕ) → length (memory e n v) ≡ n
length-memory little n v = length-le_bytes n v
length-memory big n v = length-be_bytes n v
