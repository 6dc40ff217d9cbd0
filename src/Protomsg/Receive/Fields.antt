-- ===== src/Protomsg/Receive/Fields.antt =====
-- The sections that a receiver accepts, and each part of a message read back from its bytes.
use netpro_project.Prelude.{
  ℕ, suc, ◌^◌, ◌<◌, ◌≡◌, refl, List, [], ◌∷◌, ◌++◌, length, length-append, take-append, drop-append,
  le→leb, false, All, if◌then◌else◌, ◌==◌, arith,
}
use netpro_project.Socket.{pure}
use netpro_project.Socket.Laws.{Reads, Reads-pure, Reads-bind, Reads-map}
use netpro_project.Protomsg.{
  Protocol, FileinfoSect, MsgSection, integer, string, binary, fileinfo, nonext, unknown,
  section_type, Fsmsg, idcount,
}
use netpro_project.Protomsg.Bytes.{Endian, little, big, load, hton, ntohll, le_bytes, be_bytes}
use netpro_project.Protomsg.Bytes.Laws.{
  ntoh-be_bytes, load-memory, length-le_bytes, length-be_bytes, length-memory,
}
use netpro_project.Protomsg.Bytes.Swap64.{ntohll-load}
use netpro_project.Protomsg.Buffer.{wire64}
use netpro_project.Protomsg.Buffer.Laws.{raw_bytes, fileinfo_bytes, data_bytes}
use netpro_project.Protomsg.Receive.{
  try_read, read_int, read_int64, read_byte, read_raw, read_name, read_fileinfo, read_section,
}

-- A string whose length fits its field; for a name, one that is not empty either.
abbrev pub IsRaw : List ℕ → Type 0
IsRaw s = length s < 2 ^ 32

abbrev pub IsName : List ℕ → Type 0
IsName s = (0 < length s) × (length s < 2 ^ 32)

pub record IsFileinfo (f : FileinfoSect) : Type 0 where
  pub type : f.type < 256
  pub path : IsName f.path
  pub username : IsName f.username
  pub modified : f.modified < 2 ^ 32
  pub size : f.size < 2 ^ 32
  pub replicas : f.replicas < 2 ^ 32

-- The sections that a receiver accepts.
abbrev pub IsSendable : MsgSection → Type 0
IsSendable (integer n) = n < 2 ^ 32
IsSendable (string s) = IsRaw s
IsSendable (binary s) = IsRaw s
IsSendable (fileinfo f) = IsFileinfo f
IsSendable nonext = ⊥
IsSendable (unknown t) = ⊥

pub record IsMessage (protocol : Protocol) (msg : Fsmsg) : Type 0 where
  pub tid : msg.tid < 2 ^ 64
  pub ids : All (λ id. id < 2 ^ 64) msg.ids
  pub count : length msg.ids ≡ idcount protocol
  pub msg_type : msg.msg_type < 2 ^ 16
  pub sections : All IsSendable msg.sections

try_read-Reads : (w : List ℕ) → 0 < length w → Reads (try_read (length w)) w w
unfolding try_read
try_read-Reads [] h = absurd (omega arith)
try_read-Reads (b ∷ bs) h = record {
  at = λ more s.
      rw
        (
          le→leb (length bs) (length (bs ++ more)) (omega (arith, length-append bs more)),
          take-append bs more,
          drop-append bs more,
        )
        refl;
}

-- The same, where the length is known by an equation.
sized : (n : ℕ) (w : List ℕ) → length w ≡ n → 0 < n → Reads (try_read n) w w
sized n w e h = rw (← e) (try_read-Reads w (rw e h))

read_int-Reads :
    (e : Endian) (n v : ℕ) → 0 < n → v < 256 ^ n → Reads (read_int e n) (be_bytes n v) v
unfolding read_int
read_int-Reads e n v h fits =
    rw (ntoh-be_bytes e n v fits) at
      (Reads-map (λ bs. hton e n (load e bs)) (sized n (be_bytes n v) (length-be_bytes n v) h))

pub read_int64-Reads : (e : Endian) (v : ℕ) → v < 2 ^ 64 → Reads (read_int64 e) (wire64 e v) v
unfolding read_int64
read_int64-Reads e v fits = rw (ntohll-load e v fits) at (
    Reads-map (λ bs. ntohll e (load e bs))
      (sized 8 (wire64 e v) (length-memory e 8 _) (omega arith)))

load-byte : (e : Endian) (v : ℕ) → v < 256 → load e (le_bytes 1 v) ≡ v
unfolding le_bytes
load-byte little v h = load-memory little 1 v h
load-byte big v h = load-memory big 1 v h

pub read_byte-Reads : (e : Endian) (v : ℕ) → v < 256 → Reads (read_byte e) (le_bytes 1 v) v
unfolding read_byte
read_byte-Reads e v fits =
    rw (load-byte e v fits) at
      (Reads-map (λ bs. load e bs) (sized 1 (le_bytes 1 v) (length-le_bytes 1 v) (omega arith)))

pub int4 : (e : Endian) (v : ℕ) → v < 2 ^ 32 → Reads (read_int e 4) (be_bytes 4 v) v
int4 e v h = read_int-Reads e 4 v (omega arith) h

pub read_name-Reads : (e : Endian) (s : List ℕ) → IsName s → Reads (read_name e) (raw_bytes s) s
unfolding read_name
read_name-Reads e s (pos, fits) = Reads-bind _ (int4 e (length s) fits) (try_read-Reads s pos)

some_bytes : (n : ℕ) → (suc n == 0) ≡ false
some_bytes n = ground arith

read_raw_body : (s : List ℕ) → Reads (if length s == 0 then pure [] else try_read (length s)) s s
read_raw_body [] = Reads-pure []
read_raw_body (b ∷ bs) = rw (some_bytes (length bs)) (try_read-Reads (b ∷ bs) (omega arith))

read_raw-Reads : (e : Endian) (s : List ℕ) → IsRaw s → Reads (read_raw e) (raw_bytes s) s
unfolding read_raw
read_raw-Reads e s fits = Reads-bind _ (int4 e (length s) fits) (read_raw_body s)

read_fileinfo-Reads :
    (e : Endian) (f : FileinfoSect) → IsFileinfo f → Reads (read_fileinfo e) (fileinfo_bytes f) f
unfolding read_fileinfo
read_fileinfo-Reads e f h = Reads-bind _ (read_byte-Reads e f.type h.type) (
    Reads-bind _ (read_name-Reads e f.path h.path) (
      Reads-bind _ (read_name-Reads e f.username h.username) (
        Reads-bind _ (int4 e f.modified h.modified)
          (Reads-bind _ (int4 e f.size h.size) (Reads-map _ (int4 e f.replicas h.replicas))))))

pub read_section-Reads :
    (e : Endian) (s : MsgSection)
    → IsSendable s
    → Reads (read_section e (section_type s)) (data_bytes s) s
unfolding read_section
read_section-Reads e (integer n) h = Reads-map integer (int4 e n h)
read_section-Reads e (string s) h = Reads-map string (read_raw-Reads e s h)
read_section-Reads e (binary s) h = Reads-map binary (read_raw-Reads e s h)
read_section-Reads e (fileinfo f) h = Reads-map fileinfo (read_fileinfo-Reads e f h)
read_section-Reads e nonext h = absurd h
read_section-Reads e (unknown t) h = absurd h

pub read_type-Reads : (e : Endian) (v : ℕ) → v < 2 ^ 16 → Reads (read_int e 2) (be_bytes 2 v) v
read_type-Reads e v h = read_int-Reads e 2 v (omega arith) h

pub type-ne-zero : (s : MsgSection) → IsSendable s → (section_type s == 0) ≡ false
type-ne-zero (integer n) h = refl
type-ne-zero (string s) h = refl
type-ne-zero (binary s) h = refl
type-ne-zero (fileinfo f) h = refl
type-ne-zero nonext h = absurd h
type-ne-zero (unknown t) h = absurd h

pub type-lt : (s : MsgSection) → IsSendable s → section_type s < 2 ^ 16
type-lt (integer n) h = omega arith
type-lt (string s) h = omega arith
type-lt (binary s) h = omega arith
type-lt (fileinfo f) h = omega arith
type-lt nonext h = absurd h
type-lt (unknown t) h = absurd h
