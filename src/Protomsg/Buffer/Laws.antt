-- ===== src/Protomsg/Buffer/Laws.antt =====
-- fsmsg_to_buffer writes the format of the protocol description, inside the memory it allocated.
use netpro_project.Prelude.{
  ◌*◌, ◌^◌, ◌<◌, ℕ, zero, suc, ◌+◌, ◌≤◌, ◌≡◌, refl, sym, ap, ◌∙◌, List, [], ◌∷◌, ◌++◌, length,
  length-append, get_or, append_assoc, append-nil, arith,
}
use netpro_project.Protomsg.{
  Protocol, FileinfoSect, MsgSection, integer, string, binary, fileinfo, nonext, unknown,
  section_type, Fsmsg, idcount,
}
use netpro_project.Protomsg.Bytes.{Endian, little, big, memory, be_bytes, le_bytes}
use netpro_project.Protomsg.Bytes.Laws.{memory-hton, length-be_bytes}
use netpro_project.Protomsg.Buffer.{
  Buffer, bufferadd, add, wire, wire64, add_ids, add_raw, add_fileinfo, add_data, add_sections,
  empty_buffer, fill_buffer, fsmsg_to_buffer,
}

-- What is written of each part, by concatenation.
abbrev pub raw_bytes : List ℕ → List ℕ
raw_bytes s = be_bytes 4 (length s) ++ s

abbrev pub fileinfo_bytes : FileinfoSect → List ℕ
fileinfo_bytes f =
    le_bytes 1 f.type
    ++ (raw_bytes f.path
        ++ (raw_bytes f.username
            ++ (be_bytes 4 f.modified ++ (be_bytes 4 f.size ++ be_bytes 4 f.replicas))))

abbrev pub data_bytes : MsgSection → List ℕ
data_bytes (integer n) = be_bytes 4 n
data_bytes (string s) = raw_bytes s
data_bytes (binary s) = raw_bytes s
data_bytes (fileinfo f) = fileinfo_bytes f
data_bytes nonext = []
data_bytes (unknown t) = []

unfoldable pub sections_bytes : List MsgSection → List ℕ
sections_bytes [] = []
sections_bytes (s ∷ ss) = be_bytes 2 (section_type s) ++ (data_bytes s ++ sections_bytes ss)

unfoldable pub ids_bytes : Endian → List ℕ → ℕ → ℕ → List ℕ
ids_bytes e ids zero i = []
ids_bytes e ids (suc n) i = wire64 e (get_or ids i 0) ++ ids_bytes e ids n (i + 1)

unfoldable pub message_bytes : Endian → Fsmsg → Protocol → List ℕ
unfolding ids_bytes sections_bytes
message_bytes e msg protocol =
    wire64 e msg.tid
    ++ (ids_bytes e msg.ids (idcount protocol) 0
        ++ (be_bytes 2 msg.msg_type ++ sections_bytes msg.sections))

-- What a writer does to the buffer: it appends `block`, counts it, and stays inside the allocation.
-- The bytes fit into the buffer, which is not much more than twice as long as they are.
abbrev pub InBounds : Buffer → Type 0
InBounds b = (length b.bytes ≤ b.buflen) × (b.buflen ≤ 2 * length b.bytes + 1024)

record Appends (st st' : Buffer × ℕ) (block : List ℕ) : Type 0 where
  written : st'.0.bytes ≡ st.0.bytes ++ block
  counted : st'.1 ≡ st.1 + length block
  fits : InBounds st.0 → InBounds st'.0

Appends-refl : (st : Buffer × ℕ) → Appends st st []
Appends-refl st = record {
  written = sym (append-nil st.0.bytes);
  counted = omega arith;
  fits = λ h. h;
}

Appends-trans :
    {s t u : Buffer × ℕ} {a b : List ℕ} → Appends s t a → Appends t u b → Appends s u (a ++ b)
Appends-trans {s} {t} {u} {a} {b} p q = record {
  written = q.written ∙ ap (λ x. x ++ b) p.written ∙ append_assoc s.0.bytes a b;
  counted = omega (arith, p.counted, q.counted, length-append a b);
  fits = λ h. q.fits (p.fits h);
}

bufferadd-InBounds : (b : Buffer) (block : List ℕ) → InBounds b → InBounds (bufferadd b block).0
unfolding bufferadd
bufferadd-InBounds b block (fits, short) =
    (ground (arith, length-append b.bytes block), ground (arith, length-append b.bytes block))

add-Appends : (st : Buffer × ℕ) (block : List ℕ) → Appends st (add st block) block
unfolding add
add-Appends (b, len) block = record {
  written = unfold bufferadd in refl;
  counted = unfold bufferadd in refl;
  fits = bufferadd-InBounds b block;
}

wire-Appends :
    (e : Endian) (st : Buffer × ℕ) (n v : ℕ) → Appends st (add st (wire e n v)) (be_bytes n v)
wire-Appends e st n v = rw (memory-hton e n v) (add-Appends st (be_bytes n v))

add_raw-Appends :
    (e : Endian) (s : List ℕ) (st : Buffer × ℕ) → Appends st (add_raw e s st) (raw_bytes s)
unfolding add_raw
add_raw-Appends e s st = Appends-trans (wire-Appends e st 4 (length s)) (add-Appends _ s)

byte : (e : Endian) (v : ℕ) → memory e 1 v ≡ le_bytes 1 v
unfolding le_bytes
byte little v = refl
byte big v = refl

add_fileinfo-Appends :
    (e : Endian) (f : FileinfoSect) (st : Buffer × ℕ)
    → Appends st (add_fileinfo e f st) (fileinfo_bytes f)
unfolding add_fileinfo
add_fileinfo-Appends e f st =
    Appends-trans (rw (byte e f.type) (add-Appends st (le_bytes 1 f.type))) (
      Appends-trans (add_raw-Appends e f.path _) (
        Appends-trans (add_raw-Appends e f.username _) (
          Appends-trans (wire-Appends e _ 4 f.modified)
            (Appends-trans (wire-Appends e _ 4 f.size) (wire-Appends e _ 4 f.replicas)))))

add_data-Appends :
    (e : Endian) (s : MsgSection) (st : Buffer × ℕ) → Appends st (add_data e s st) (data_bytes s)
unfolding add_data
add_data-Appends e (integer n) st = wire-Appends e st 4 n
add_data-Appends e (string s) st = add_raw-Appends e s st
add_data-Appends e (binary s) st = add_raw-Appends e s st
add_data-Appends e (fileinfo f) st = add_fileinfo-Appends e f st
add_data-Appends e nonext st = Appends-refl st
add_data-Appends e (unknown t) st = Appends-refl st

add_sections-Appends :
    (e : Endian) (ss : List MsgSection) (st : Buffer × ℕ)
    → Appends st (add_sections e ss st) (sections_bytes ss)
unfolding add_sections sections_bytes
add_sections-Appends e [] st = Appends-refl st
add_sections-Appends e (s ∷ ss) st =
    Appends-trans (wire-Appends e st 2 (section_type s))
      (Appends-trans (add_data-Appends e s _) (add_sections-Appends e ss _))

add_ids-Appends :
    (e : Endian) (ids : List ℕ) (n i : ℕ) (st : Buffer × ℕ)
    → Appends st (add_ids e ids n i st) (ids_bytes e ids n i)
unfolding add_ids ids_bytes
add_ids-Appends e ids zero i st = Appends-refl st
add_ids-Appends e ids (suc n) i st =
    Appends-trans (add-Appends st (wire64 e (get_or ids i 0))) (add_ids-Appends e ids n (i + 1) _)

fill_buffer-Appends :
    (e : Endian) (msg : Fsmsg) (protocol : Protocol)
    → Appends empty_buffer (fill_buffer e msg protocol) (message_bytes e msg protocol)
unfolding fill_buffer message_bytes
fill_buffer-Appends e msg protocol = Appends-trans (add-Appends _ (wire64 e msg.tid)) (
    Appends-trans (add_ids-Appends e msg.ids (idcount protocol) 0 _)
      (Appends-trans (wire-Appends e _ 2 msg.msg_type) (add_sections-Appends e msg.sections _)))

-- The buffer holds the message's bytes and nothing else, and the result is their number.
pub fsmsg_to_buffer_lem :
    (e : Endian) (msg : Fsmsg) (protocol : Protocol)
    → fsmsg_to_buffer e msg protocol
      ≡ (message_bytes e msg protocol, length (message_bytes e msg protocol))
unfolding fsmsg_to_buffer
fsmsg_to_buffer_lem e msg protocol =
    let p = fill_buffer-Appends e msg protocol in ground (arith, p.written, p.counted)

-- For a message that takes fewer than 2 ^ 30 - 512 bytes, no write of fsmsg_to_buffer passes the end of the
-- allocated buffer, whose length stays below 2 ^ 31, so that it, like the other counters, is an int.
pub fill_buffer_fits :
    (e : Endian) (msg : Fsmsg) (protocol : Protocol)
    → length (message_bytes e msg protocol) + 512 < 2 ^ 30
    → (length (fill_buffer e msg protocol).0.bytes ≤ (fill_buffer e msg protocol).0.buflen)
      × ((fill_buffer e msg protocol).0.buflen < 2 ^ 31)
fill_buffer_fits e msg protocol small =
    let p = fill_buffer-Appends e msg protocol in
    let (fits, short) = p.fits (omega arith, omega arith) in
    (fits, omega (arith, short, ap length p.written))

length-sections_bytes : (ss : List MsgSection) → length ss ≤ length (sections_bytes ss)
unfolding sections_bytes
length-sections_bytes [] = omega arith
length-sections_bytes (s ∷ ss) = omega (
  arith,
  length-append (be_bytes 2 (section_type s)) (data_bytes s ++ sections_bytes ss),
  length-append (data_bytes s) (sections_bytes ss),
  length-be_bytes 2 (section_type s),
  length-sections_bytes ss,
)

-- A message has a byte at least for each section.
pub length-message_bytes :
    (e : Endian) (protocol : Protocol) (msg : Fsmsg)
    → length msg.sections ≤ length (message_bytes e msg protocol)
unfolding message_bytes
length-message_bytes e protocol msg =
    let tail = sections_bytes msg.sections in
    let type = be_bytes 2 msg.msg_type in
    let ids = ids_bytes e msg.ids (idcount protocol) 0 in
    omega (
      arith,
      length-append (wire64 e msg.tid) (ids ++ (type ++ tail)),
      length-append ids (type ++ tail),
      length-append type tail,
      length-sections_bytes msg.sections,
    )

sections_bytes-append :
    (ss ts : List MsgSection) → sections_bytes (ss ++ ts) ≡ sections_bytes ss ++ sections_bytes ts
unfolding sections_bytes
sections_bytes-append [] ts = refl
sections_bytes-append (s ∷ ss) ts = simp (sections_bytes-append ss ts, append_assoc)

-- A message cut in front of one of its sections.
pub message_bytes-append :
    (e : Endian) (protocol : Protocol) (msg : Fsmsg) (s : MsgSection) (rest : List MsgSection)
    → message_bytes e (record msg { sections = msg.sections ++ s ∷ rest }) protocol
      ≡ message_bytes e msg protocol
        ++ (be_bytes 2 (section_type s) ++ (data_bytes s ++ sections_bytes rest))
unfolding message_bytes
message_bytes-append e protocol msg s rest =
    simp (sections_bytes-append msg.sections (s ∷ rest), append_assoc)
      (unfold sections_bytes in refl)
