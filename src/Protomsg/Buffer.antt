-- ===== src/Protomsg/Buffer.antt =====
-- bufferadd and fsmsg_to_buffer of src/protomsg.c.
-- The counters are `int` in the source; the messages are taken to be so short that none of them overflows,
-- for which fewer than 2 ^ 30 - 512 bytes are enough.
pub mod Laws
pub mod Network
use netpro_project.Prelude.{
  ℕ, zero, suc, ◌+◌, List, [], ◌∷◌, ◌++◌, length, get_or, ltb, if◌then◌else◌,
}
use netpro_project.Protomsg.{
  Protocol, FileinfoSect, MsgSection, integer, string, binary, fileinfo, nonext, unknown,
  section_type, Fsmsg, idcount,
}
use netpro_project.Protomsg.Bytes.{Endian, memory, hton, htonll}

-- `buflen` bytes are allocated, and `bytes` are those below `ptr`.
pub record Buffer : Type 0 where
  pub buflen : ℕ
  pub bytes : List ℕ

-- The result is `datalen`.
unfoldable pub bufferadd : Buffer → List ℕ → Buffer × ℕ
bufferadd b block =
    let curlen = length b.bytes in
    let datalen = length block in
    let buflen = if ltb b.buflen (curlen + datalen) then b.buflen + (datalen + 64) else b.buflen in
    (record { buflen = buflen; bytes = b.bytes ++ block }, datalen)

-- `len += bufferadd(…)`
unfoldable pub add : Buffer × ℕ → List ℕ → Buffer × ℕ
add (b, len) block = let (b', n) = bufferadd b block in (b', len + n)

-- The bytes of a converted integer, as memcpy takes them.
abbrev pub wire : Endian → ℕ → ℕ → List ℕ
wire e n v = memory e n (hton e n v)

abbrev pub wire64 : Endian → ℕ → List ℕ
wire64 e v = memory e 8 (htonll e v)

-- `for (int i = 0; i < idcount; i++)`: the rounds left, then `i`. An id is never out of range.
unfoldable pub add_ids : Endian → List ℕ → ℕ → ℕ → Buffer × ℕ → Buffer × ℕ
add_ids e ids zero i st = st
add_ids e ids (suc n) i st = add_ids e ids n (i + 1) (add st (wire64 e (get_or ids i 0)))

unfoldable pub add_raw : Endian → List ℕ → Buffer × ℕ → Buffer × ℕ
add_raw e s st = add (add st (wire e 4 (length s))) s

unfoldable pub add_fileinfo : Endian → FileinfoSect → Buffer × ℕ → Buffer × ℕ
unfolding add_raw
add_fileinfo e f st =
    let s1 = add st (memory e 1 f.type) in
    let s2 = add_raw e f.path s1 in
    let s3 = add_raw e f.username s2 in
    let s4 = add s3 (wire e 4 f.modified) in
    let s5 = add s4 (wire e 4 f.size) in add s5 (wire e 4 f.replicas)

-- The switch on the section's type, after the type itself is written.
unfoldable pub add_data : Endian → MsgSection → Buffer × ℕ → Buffer × ℕ
unfolding add_raw add_fileinfo
add_data e (integer n) st = add st (wire e 4 n)
add_data e (string s) st = add_raw e s st
add_data e (binary s) st = add_raw e s st
add_data e (fileinfo f) st = add_fileinfo e f st
add_data e nonext st = st
add_data e (unknown t) st = st

unfoldable pub add_sections : Endian → List MsgSection → Buffer × ℕ → Buffer × ℕ
unfolding add_data
add_sections e [] st = st
add_sections e (s ∷ ss) st = add_sections e ss (add_data e s (add st (wire e 2 (section_type s))))

abbrev pub empty_buffer : Buffer × ℕ
empty_buffer = (record { buflen = 1024; bytes = [] }, 0)

-- The buffer with its allocated size, and the length that is returned.
unfoldable pub fill_buffer : Endian → Fsmsg → Protocol → Buffer × ℕ
unfolding add_ids add_sections
fill_buffer e msg protocol =
    let tid = add empty_buffer (wire64 e msg.tid) in
    let ids = add_ids e msg.ids (idcount protocol) 0 tid in
    let type = add ids (wire e 2 msg.msg_type) in add_sections e msg.sections type

unfoldable pub fsmsg_to_buffer : Endian → Fsmsg → Protocol → List ℕ × ℕ
unfolding fill_buffer
fsmsg_to_buffer e msg protocol = let (b, len) = fill_buffer e msg protocol in (b.bytes, len)
