-- ===== src/Protomsg/Receive/Faults.antt =====
-- Messages of the program's own making that fsmsg_from_socket does not read: file information with an
-- empty name, and contents that arrive in more than one segment.
use netpro_project.Prelude.{
  ℕ, zero, suc, ◌^◌, ◌<◌, ◌≡◌, refl, ◌⊎◌, false, List, [], ◌∷◌, ◌++◌, length, length-append,
  append_assoc, leb, ◌==◌, arith,
}
use netpro_project.Socket.{Socket, push_back, indeterminate}
use netpro_project.Protomsg.{Protocol, FileinfoSect, MsgSection, binary, st_binary, Fsmsg}
use netpro_project.Protomsg.Bytes.{Endian, be_bytes}
use netpro_project.Protomsg.Buffer.{fsmsg_to_buffer}
use netpro_project.Protomsg.Buffer.Laws.{
  sections_bytes, message_bytes, fsmsg_to_buffer_lem, message_bytes-append,
}
use netpro_project.Protomsg.Receive.{try_read, read_raw, read_section, fsmsg_from_socket}
use netpro_project.Protomsg.Receive.Fields.{IsName, IsMessage, int4}
use netpro_project.Protomsg.Receive.Stops.{
  unwritten, Stops, Stops-bind_first, Stops-bind, fsmsg_from_socket-Stops,
}

-- A name is empty: the path, or the user name behind a path.
abbrev pub HasEmptyName : FileinfoSect → Type 0
HasEmptyName f = (f.path ≡ []) ⊎ (IsName f.path × (f.username ≡ []))

try_read-cut : (n : ℕ) (w : List ℕ) → 0 < length w → length w < n → Stops unwritten (try_read n) w
unfolding try_read
try_read-cut n [] h k = absurd (omega arith)
try_read-cut zero (b ∷ bs) h k = absurd (omega arith)
try_read-cut (suc n) (b ∷ bs) h k = record { at = λ s. rw (le-false n (length bs) (omega arith)) }
  where
    le-false : (n m : ℕ) → m < n → leb n m ≡ false
    le-false n m h = ground arith

read_raw-cut :
    (e : Endian) (w : List ℕ) (n : ℕ)
    → 0 < length w
    → length w < n
    → n < 2 ^ 32
    → Stops unwritten (read_raw e) (be_bytes 4 n ++ w)
unfolding read_raw
read_raw-cut e w n h k fits =
    Stops-bind _ (int4 e n fits) (rw (some-bytes n (omega arith)) (try_read-cut n w h k))
  where
    some-bytes : (n : ℕ) → 0 < n → (n == 0) ≡ false
    some-bytes n h = ground arith

section-cut :
    (e : Endian) (w : List ℕ) (n : ℕ)
    → 0 < length w
    → length w < n
    → n < 2 ^ 32
    → Stops unwritten (read_section e st_binary) (be_bytes 4 n ++ w)
unfolding read_section
section-cut e w n h k fits = Stops-bind_first unwritten _ (read_raw-cut e w n h k fits)

-- The bytes of a message up to the middle of a binary section that holds `a ++ b`.
abbrev pub up_to_cut : Endian → Protocol → Fsmsg → List ℕ → List ℕ → List ℕ
up_to_cut e protocol msg a b =
    message_bytes e msg protocol ++ (be_bytes 2 st_binary ++ (be_bytes 4 (length (a ++ b)) ++ a))

-- File contents that a segment boundary cuts, with some bytes on either side of it, are not read:
-- what fsmsg_to_buffer writes begins with the bytes up to the cut, and if a segment ends there,
-- fsmsg_from_socket goes on with memory that was never written.
pub fsmsg_from_socket-cut :
    (e : Endian) (protocol : Protocol) (msg : Fsmsg) (a b : List ℕ) (rest : List MsgSection)
    (s : Socket)
    → IsMessage protocol msg
    → 0 < length a
    → 0 < length b
    → length (a ++ b) < 2 ^ 32
    → ((fsmsg_to_buffer e
          (record msg { sections = msg.sections ++ binary (a ++ b) ∷ rest })
          protocol).0
        ≡ up_to_cut e protocol msg a b ++ (b ++ sections_bytes rest))
      × (fsmsg_from_socket e protocol (push_back (up_to_cut e protocol msg a b) s) ≡ indeterminate)
fsmsg_from_socket-cut e protocol msg a b rest s h ha hb fits = (
  rw
      (
        fsmsg_to_buffer_lem e (record msg { sections = msg.sections ++ binary (a ++ b) ∷ rest })
            protocol,
        message_bytes-append e protocol msg (binary (a ++ b)) rest,
      )
      (simp append_assoc),
  fsmsg_from_socket-Stops e unwritten st_binary (be_bytes 4 (length (a ++ b)) ++ a) (omega arith)
      refl (section-cut e a (length (a ++ b)) ha (omega (arith, length-append a b)) fits) protocol
      msg s h,
)
